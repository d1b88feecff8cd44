-- ===== src/Cashier/Store/Laws.antt =====
-- Laws of cashier/store.py: the nonces and the times.
use tanaka.Prelude.{
  ℕ, ◌+◌, ◌≤◌, String, ◌==◌, ◌≡◌, refl, ◌&&◌, ◌||◌, List, [], ◌∷◌, ◌++◌, eq_iff, arith,
  if◌then◌else◌,
}
use tanaka.Cashier.Store.{
  CashierStore, History, nonce_is_spent, nonce_seen, times_of, count_recent, add_time,
}

-- After `nonce_seen` the spent nonces are those that were spent before, and the one presented.
pub nonce_is_spent-nonce_seen :
    (s : CashierStore) (m n : String)
    → nonce_is_spent (nonce_seen s m).0 n ≡ (n == m || nonce_is_spent s n)
unfolding nonce_is_spent nonce_seen
nonce_is_spent-nonce_seen s m n = ground (arith, eq_iff n m)

pub history-nonce_seen : (s : CashierStore) (n : String) → (nonce_seen s n).0.history ≡ s.history
unfolding nonce_seen
history-nonce_seen s n = ground arith

pub times_of-add_time :
    (p c q d : String) (now : ℕ) (h : History)
    → times_of q d (add_time p c now h)
      ≡ (if p == q && c == d then times_of q d h ++ now ∷ [] else times_of q d h)
unfolding times_of add_time
times_of-add_time p c q d now [] = refl
times_of-add_time p c q d now ((a, b, times) ∷ h) = ground (
  arith,
  times_of-add_time p c q d now h,
  eq_iff a p,
  eq_iff b c,
  eq_iff a q,
  eq_iff b d,
  eq_iff p q,
  eq_iff c d,
)

pub count_recent-append :
    (now : ℕ) (xs ys : List ℕ)
    → count_recent now (xs ++ ys) ≡ count_recent now xs + count_recent now ys
unfolding count_recent
count_recent-append now [] ys = omega arith
count_recent-append now (x ∷ xs) ys = ground (arith, count_recent-append now xs ys)

-- As the clock goes on, times leave the window and none enters it.
pub count_recent_antitone :
    (now later : ℕ) (times : List ℕ)
    → now ≤ later
    → count_recent later times ≤ count_recent now times
unfolding count_recent
count_recent_antitone now later [] h = omega arith
count_recent_antitone now later (x ∷ xs) h = ground (arith, count_recent_antitone now later xs h)
