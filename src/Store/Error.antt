-- ===== src/Store/Error.antt =====
-- The sentinel errors of internal/store/store.go, and results that may carry one.
use battery.Prelude.{ℕ, List, String, Bool, true, false, ◌≡◌, refl, ◌⊎◌, inl, inr}

-- `other` is every error that wraps no sentinel: a failed SQL statement, a constraint that has no
-- sentinel of its own, a row that cannot be marshalled, a cancelled context.
pub data Error : Type 0 where
  not_found no_available_vm lease_not_expired duplicate_request_id : Error
  host_cordoned host_not_registered host_exists : Error
  host_in_use : List (String × String) → ℕ → Error
  pool_has_leased_vms vm_deleting other : Error

pub data Result {ℓ} (A : Type ℓ) : Type ℓ where
  ok : A → Result A
  err : Error → Result A

-- errors.Is(err, ErrNotFound), and so on
unfoldable pub is_not_found : Error → Bool
is_not_found not_found = true
is_not_found _ = false

pub ok-eq-ok {ℓ} : {A : Type ℓ} {a b : A} → ok a ≡ ok b → a ≡ b
ok-eq-ok e = cc

pub Result-cases {ℓ} :
    {A : Type ℓ} (r : Result A) → ((a : A) × (r ≡ ok a)) ⊎ ((e : Error) × (r ≡ err e))
Result-cases (ok a) = inl (a, refl)
Result-cases (err e) = inr (e, refl)
