-- ===== src/Providers/Http/Writes.antt =====
-- How often a write is sent, and what it leaves open.
use worshiptool_churchtools.Prelude.{◌||◌, [], ◌&&◌, leb, ltb, ◌≡◌, Bool, true, false}
use worshiptool_churchtools.Sync.Errors.{ErrorKind, SyncError}
use worshiptool_churchtools.Providers.Http.Body.{Body, Ending}
use worshiptool_churchtools.Providers.Http.Request.{
  Answer, Attempt, Method, Outside, Reply, RetryPolicy, Exchange,
}
use worshiptool_churchtools.Providers.Http.Bounds.{is_assertion}

abbrev pub is_corrupt : Ending → Bool
is_corrupt Ending.undecodable = true
is_corrupt _ = false

module _ {J : Type 0} (outside : Outside J) (method : Method) (policy : RetryPolicy) where
  abbrev pub is_indeterminate : SyncError → Bool
  is_indeterminate e = elim e.kind [ ErrorKind.indeterminate_write ↦ true | _ ↦ false ]

  -- An answer with which the provider turns a request down.
  abbrev pub is_refused : Reply → Bool
  is_refused (Reply.response r) =
      ltb r.status_code 200 || (leb 300 r.status_code && ltb r.status_code 500)
  is_refused Reply.timed_out = false
  is_refused Reply.unreachable = false

  -- An accepted request whose answer has a corrupt content coding.
  abbrev pub is_undecodable : Reply → Bool
  is_undecodable (Reply.response r) =
      leb 200 r.status_code && ltb r.status_code 300 && is_corrupt r.ending
  is_undecodable Reply.timed_out = false
  is_undecodable Reply.unreachable = false

  abbrev is_explained : Reply → Attempt J → Bool
  is_explained reply (Attempt.finished value) = true
  is_explained reply (Attempt.failed e) = is_indeterminate e || is_refused reply
  is_explained reply Attempt.undecodable = is_undecodable reply
  is_explained reply (Attempt.retry delay) = false

  -- What is known of the outcome of a write.
  pub record IsSentOnce (reply : Reply) (e : Exchange J) : Type 0 where
    pub no_delay : e.delays ≡ []
    pub outcome :
        (error : SyncError)
        → e.result ≡ Answer.failed error
        → (is_indeterminate error || is_refused reply) ≡ true
    pub undecoded : e.result ≡ Answer.decoding_error → is_undecodable reply ≡ true
    pub reached : is_assertion e.result ≡ false
