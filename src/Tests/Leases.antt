-- ===== src/Tests/Leases.antt =====
-- Leases in a database that is a dictionary.
use worshiptool_churchtools.Prelude.{
  ◌≡◌, refl, String, Bool, true, false, Option, none, some, List, [], ◌∷◌, if◌then◌else◌, ◌==◌,
  arith, eq_iff, eq_refl, Dict, get, put, get-put, is_some,
}
use worshiptool_churchtools.Sync.Leases.Redis.{Redis}
use worshiptool_churchtools.Sync.Leases.Manager.{Call, Operation}
use worshiptool_churchtools.Sync.Leases.Lock.{answers, lock_answers, answers-lock_answers}

abbrev remove : String → Dict String → Dict String
remove k [] = []
remove k ((j, v) ∷ d) = let rest = remove k d in if j == k then rest else (j, v) ∷ rest

get-remove :
    (k j : String) (d : Dict String) → get j (remove k d) ≡ (if k == j then none else get j d)
get-remove k j [] = ground arith
get-remove k j ((i, v) ∷ d) = ground (arith, eq_iff k j, eq_iff i k, eq_iff i j, get-remove k j d)

abbrev set_if : String → String → Option String → Dict String → Bool × Dict String
set_if name value none d = (true, put name value d)
set_if name value (some holder) d = (false, d)

set_if-other :
    (name other value : String) (found : Option String) (d : Dict String)
    → (name == other) ≡ false
    → get other (set_if name value found d).1 ≡ get other d
set_if-other name other value none d h = ground (arith, h, get-put name other value d)
set_if-other name other value (some holder) d h = refl

abbrev dictionary : Redis (Dict String)
dictionary = record {
  get = get;
  set_nx = λ name value ttl d. set_if name value (get name d) d;
  del = remove;
  expire = λ name ttl d. (is_some (get name d), d);
  set_free =
      λ name value ttl d h k. rw k (refl, ground (arith, eq_refl name, get-put name name value d));
  set_taken = λ name value holder ttl d h k. rw k (refl, k);
  set_other = λ name other value ttl d h. set_if-other name other value (get name d) d h;
  get_del = λ name d. ground (arith, eq_refl name, get-remove name name d);
  del_other = λ name other d h. ground (arith, h, get-remove name other d);
  expire_there = λ name holder ttl d k. rw k refl;
  get_expire = λ name other ttl d h. refl;
}

abbrev key : String → String → String
key connection_id event_id = event_id

abbrev call : Operation → String → String → Call
call operation event_id token = record {
  operation = operation;
  connection_id = "cn1";
  event_id = event_id;
  token = token;
  ttl = 300;
}

-- Two workers and two events.
abbrev calls : List Call
calls =
    call Operation.acquires "t1" "w1"
    ∷ call Operation.acquires "t1" "w2"
    ∷ call Operation.acquires "t2" "w2"
    ∷ call Operation.renews "t1" "w1"
    ∷ call Operation.releases "t1" "w2"
    ∷ []

answers-lock_answers_example :
    answers dictionary key "t1" calls [] ≡ lock_answers dictionary key "t1" calls none
answers-lock_answers_example =
    answers-lock_answers dictionary key "t1" calls [] none
      (omega arith, (omega arith, (omega arith, (omega arith, (omega arith, tt))))) refl
