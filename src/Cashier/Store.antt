-- ===== src/Cashier/Store.antt =====
-- cashier/store.py: the nonces that were presented, and the times of the accepted orders.
-- The clock is read by the caller: a time is a natural number of seconds.
pub mod Laws
use tanaka.Prelude.{
  ℕ, suc, ◌+◌, ◌-◌, String, ◌==◌, Bool, true, false, ◌&&◌, Option, none, some, List, [], ◌∷◌, ◌++◌,
  elem, ltb, if◌then◌else◌,
}

abbrev pub rate_window_seconds : ℕ
rate_window_seconds = 3600

-- `dict[tuple[str, str], list[float]]`
abbrev pub History : Type 0
History = List (String × String × List ℕ)

pub record CashierStore : Type 0 where
  pub seen_nonces : List String
  pub history : History

abbrev pub empty_store : CashierStore
empty_store = record { seen_nonces = []; history = [] }

unfoldable pub nonce_is_spent : CashierStore → String → Bool
nonce_is_spent s nonce = elem nonce s.seen_nonces

-- Registers the nonce, and tells whether it was there.
unfoldable pub nonce_seen : CashierStore → String → CashierStore × Bool
nonce_seen s nonce =
    if elem nonce s.seen_nonces
    then (s, true)
    else (record s { seen_nonces = nonce ∷ s.seen_nonces }, false)

-- `history.get((principal, capability_id))`, with no entry read as the empty list
unfoldable pub times_of : String → String → History → List ℕ
times_of p c [] = []
times_of p c ((q, d, times) ∷ h) = if q == p && d == c then times else times_of p c h

-- `sum(1 for ts in history if now - ts < RATE_WINDOW_SECONDS)`; a time that lies ahead counts
unfoldable pub count_recent : ℕ → List ℕ → ℕ
count_recent now [] = 0
count_recent now (ts ∷ times) =
    if ltb (now - ts) rate_window_seconds
    then suc (count_recent now times)
    else count_recent now times

unfoldable pub rate_count : CashierStore → ℕ → String → String → ℕ
rate_count s now principal capability_id =
    count_recent now (times_of principal capability_id s.history)

unfoldable pub add_time : String → String → ℕ → History → History
add_time p c now [] = (p, c, now ∷ []) ∷ []
add_time p c now ((q, d, times) ∷ h) =
    if q == p && d == c then (q, d, times ++ now ∷ []) ∷ h else (q, d, times) ∷ add_time p c now h

unfoldable pub record_accept : CashierStore → ℕ → String → String → CashierStore
record_accept s now principal capability_id = record s {
  history = add_time principal capability_id now s.history;
}
