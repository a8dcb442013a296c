-- ===== src/Store.antt =====
-- internal/store/store.go: the errors, markers and keys that every store shares, and the interface.
pub mod Memory
pub mod Interface
use kibitz.Prelude.{Bytes, codes, Option, none, some, ◌++◌, ◌∷◌, ℕ}
use kibitz.Prelude.Int.{ℤ, pos}
use kibitz.Prelude.Decimal.{format_int}
use kibitz.Event.{ReviewEvent, PullRequest, key}

pub data StoreError : Type 0 where
  locked not_found lease_lost : StoreError
  backend : Bytes → StoreError

abbrev pub marker_claim : Bytes
marker_claim = codes "claim"

abbrev pub marker_done : Bytes
marker_done = codes "done"

unfoldable pub delivery_key : ReviewEvent → Bytes
delivery_key e = codes "delivery:" ++ (e.source.platform ++ (b':' ∷ e.source.delivery_id))

abbrev number_or_zero : Option PullRequest → ℤ
number_or_zero none = pos 0
number_or_zero (some p) = p.number

unfoldable pub job_key : ReviewEvent → Bytes → Bytes
job_key e head =
    codes "job:"
    ++ (e.source.platform
        ++ (b':' ∷ e.full_name
            ++ (b':' ∷ format_int (number_or_zero e.pull_request) ++ (b':' ∷ head))))

unfoldable pub lock_key : ReviewEvent → Bytes
lock_key e = codes "lock:" ++ key e

unfoldable pub session_key : ReviewEvent → Bytes
session_key e = codes "session:" ++ key e

unfoldable pub reviewed_key : ReviewEvent → Bytes
reviewed_key e = codes "reviewed:" ++ key e

unfoldable pub ignore_key : ReviewEvent → Bytes
ignore_key e = codes "ignore:" ++ key e

-- The second argument is the month, as time.Format prints it.
unfoldable pub spend_key : Bytes → Bytes → Bytes
spend_key repo month = codes "spend:" ++ (repo ++ (b':' ∷ month))
