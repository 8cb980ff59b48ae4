-- ===== src/Outbox/Totals.antt =====
-- The counts of a batch, and the outcome of one delivery.
use worshiptool_churchtools.Prelude.{
  ℕ, zero, suc, ◌+◌, ◌≤◌, ◌≡◌, refl, String, Option, none, some, List, [], ◌∷◌, arith, count_if,
  modify_if,
}
use worshiptool_churchtools.Outbox.State.{
  OutboxStatus, NotificationOutbox, Store, Settings, is_claimed_by,
}
use worshiptool_churchtools.Outbox.Consumer.{
  DeliveryEnvelope, Loaded, Outside, claim_one, complete, delivered_item,
}
use worshiptool_churchtools.Outbox.Batch.{
  BatchResult, nothing_claimed, tally, Rounds, batch_limit, round, run_rounds, process_batch,
  load_delivery, send, deliver, deliver_loaded, after_send,
}

abbrev Adds : BatchResult → Type 0
Adds r = r.claimed ≡ r.delivered + r.retried + r.dead

tally-Adds : (outcome : OutboxStatus) (r : BatchResult) → Adds r → Adds (tally outcome r)
unfolding tally
tally-Adds outcome r h = ground arith

tally-claimed :
    (outcome : OutboxStatus) (r : BatchResult) → (tally outcome r).claimed ≡ r.claimed + 1
unfolding tally
tally-claimed outcome r = ground arith

module _ (o : Outside) (settings : Settings) (rounds : Rounds) where
  -- What a loop of so many rounds does to the counts.
  abbrev Bounded : ℕ → (ℕ → BatchResult → Store → BatchResult × Store) → Type 0
  Bounded n k =
      (i : ℕ) (r : BatchResult) (s : Store)
      → Adds r
      → Adds (k i r s).0 × ((k i r s).0.claimed ≤ r.claimed + n)

  Bounded-round :
      (n i : ℕ) (k : ℕ → BatchResult → Store → BatchResult × Store) (r : BatchResult)
      (claim : Option ℕ × Store)
      → Bounded n k
      → Adds r
      → Adds (round o settings rounds k i r claim).0
        × ((round o settings rounds k i r claim).0.claimed ≤ r.claimed + suc n)
  Bounded-round n i k r (none, s) h a = (a, omega arith)
  Bounded-round n i k r (some id, s) h a =
      let d : OutboxStatus × Store =
        deliver o settings (rounds.deliver_time i) id (rounds.token i) s in
      let (adds, few) = h (i + 1) (tally d.0 r) d.1 (tally-Adds d.0 r a) in
      (adds, omega (arith, few, tally-claimed d.0 r))

  Bounded-run_rounds : (n : ℕ) → Bounded n (run_rounds o settings rounds n)
  unfolding run_rounds
  Bounded-run_rounds zero i r s a = (a, omega arith)
  Bounded-run_rounds (suc n) i r s a =
      Bounded-round n i (run_rounds o settings rounds n) r
        (claim_one settings (rounds.claim_time i) (rounds.token i) s) (Bounded-run_rounds n) a

  batch_limit-le : (limit : Option ℕ) → batch_limit settings limit ≤ 500
  unfolding batch_limit
  batch_limit-le limit = ground arith

  -- A batch ends after at most five hundred claims, and every claim is counted once, as delivered,
  -- as dead, or as one to be tried again.
  pub process_batch_totals :
      (limit : Option ℕ) (s : Store)
      → ((process_batch o settings rounds limit s).0.claimed
          ≡ (process_batch o settings rounds limit s).0.delivered
            + (process_batch o settings rounds limit s).0.retried
            + (process_batch o settings rounds limit s).0.dead)
        × ((process_batch o settings rounds limit s).0.claimed ≤ 500)
  unfolding process_batch
  process_batch_totals limit s =
      let (adds, few) =
        Bounded-run_rounds (batch_limit settings limit) 0 nothing_claimed s (omega arith) in
      (adds, omega (arith, few, batch_limit-le limit))

released :
    (now id : ℕ) (token : String) (items : List NotificationOutbox)
    → count_if
        (is_claimed_by id token)
        (modify_if (is_claimed_by id token) (delivered_item now) items)
      ≡ 0
released now id token [] = refl
released now id token (x ∷ xs) = ground (arith, released now id token xs)

-- A message that its sender accepted is acknowledged, even if the heartbeat failed, as long as the
-- claim was not taken over meanwhile: the delivery reports success and releases the claim.
pub deliver_accepted :
    (o : Outside) (settings : Settings) (now id : ℕ) (token : String) (envelope : DeliveryEnvelope)
    (s t : Store)
    → load_delivery o id token s ≡ Loaded.loaded envelope
    → send o now envelope s ≡ (none, t)
    → count_if (is_claimed_by id token) t.outbox ≡ 1
    → ((deliver o settings now id token s).0 ≡ OutboxStatus.delivered)
      × (count_if (is_claimed_by id token) (deliver o settings now id token s).1.outbox ≡ 0)
unfolding deliver deliver_loaded after_send complete
deliver_accepted o settings now id token envelope s t l e c =
    rw (l, deliver_loaded, e, after_send, c) (refl, released now id token t.outbox)
