-- ===== src/Sync/Leases/Manager.antt =====
-- `RedisEventLeaseManager`. The digest of a lease's name is the outside's.
use worshiptool_churchtools.Prelude.{
  ℕ, String, Bool, false, Option, none, some, if◌then◌else◌, ◌==◌,
}
use worshiptool_churchtools.Sync.Leases.Redis.{Redis}

-- `redis.call('get', KEYS[1]) == ARGV[1]`
abbrev pub is_holder : Option String → String → Bool
is_holder none token = false
is_holder (some holder) token = holder == token

module _ {S : Type 0} (redis : Redis S) (key : String → String → String) where
  unfoldable pub acquire : String → String → String → ℕ → S → Bool × S
  acquire connection_id event_id token ttl s = redis.set_nx (key connection_id event_id) token ttl s

  -- `_RELEASE_SCRIPT`
  unfoldable pub release_script : String → String → S → S
  release_script name token s = if is_holder (redis.get name s) token then redis.del name s else s

  unfoldable pub release : String → String → String → S → S
  unfolding release_script
  release connection_id event_id token s = release_script (key connection_id event_id) token s

  -- `_RENEW_SCRIPT`
  unfoldable pub renew_script : String → String → ℕ → S → Bool × S
  renew_script name token ttl s =
      if is_holder (redis.get name s) token then redis.expire name ttl s else (false, s)

  unfoldable pub renew : String → String → String → ℕ → S → Bool × S
  unfolding renew_script
  renew connection_id event_id token ttl s = renew_script (key connection_id event_id) token ttl s

-- What a worker asks of the manager.
pub data Operation : Type 0 where
  acquires releases renews : Operation

pub record Call : Type 0 where
  pub operation : Operation
  pub connection_id : String
  pub event_id : String
  pub token : String
  pub ttl : ℕ

module _ {S : Type 0} (redis : Redis S) (key : String → String → String) where
  -- The call's answer, which `release` does not have, and the database after it.
  unfoldable pub perform_by : Operation → Call → S → Option Bool × S
  unfolding acquire release renew
  perform_by Operation.acquires c s =
      let (answer, after) = acquire redis key c.connection_id c.event_id c.token c.ttl s in
      (some answer, after)
  perform_by Operation.releases c s = (none, release redis key c.connection_id c.event_id c.token s)
  perform_by Operation.renews c s =
      let (answer, after) = renew redis key c.connection_id c.event_id c.token c.ttl s in
      (some answer, after)

  unfoldable pub perform : Call → S → Option Bool × S
  unfolding perform_by
  perform c s = perform_by c.operation c s
