-- ===== src/Subscription/Capacity.antt =====
-- The seats in use, and accounts that are suspended
-- (backend/src/modules/subscription/subscription.repository.js).
use havale_khodro.Prelude.{
  ◌≡◌, arith, ◌==◌, get_or, count_where, update_where, ℕ, ◌≤◌, Bool, true, Option, List, [], ◌∷◌,
}
use havale_khodro.Subscription.Seats.{count_seats_used, holds_seat}
use havale_khodro.Report.Store.{suspend_account, suspended_user}
use havale_khodro.Schema.Entities.{Env, Db}

count_where-grows {ℓ} :
    {A : Type ℓ} (q p : A → Bool) (f : A → A) (xs : List A)
    → ((x : A) → q x ≡ true → q (f x) ≡ true)
    → count_where q xs ≤ count_where q (update_where p f xs)
unfolding count_where update_where
count_where-grows q p f [] h = ground arith
count_where-grows q p f (x ∷ xs) h = ground (arith, h x, count_where-grows q p f xs h)

-- Suspending an account within a period releases no seat: no parent has fewer seats in use after
-- it, for any period that began no later than now.
pub count_seats_used-suspend_account :
    (env : Env) (parent_id k : ℕ) (start : Option ℕ) (s : Db)
    → get_or start 0 ≤ env.now
    → count_seats_used parent_id start s
      ≤ count_seats_used parent_id start (suspend_account env k s)
unfolding count_seats_used suspend_account
count_seats_used-suspend_account env parent_id k start s h =
    count_where-grows (holds_seat parent_id (get_or start 0)) (λ u. u.id == k) (suspended_user env)
      s.users (λ u q. ground arith)
