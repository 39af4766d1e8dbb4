-- ===== src/Common/Table.antt =====
-- Tables of the database as lists of rows, oldest first, read and written by a text key.
use Prim.Native.String.{String}
use mathlib.Core.Path.{◌≡◌, refl}
use mathlib.Core.Bool.{Bool}
use mathlib.Core.Option.{Option, none, some}
use mathlib.Core.Option
use mathlib.Core.List.{List, [], ◌∷◌, ◌++◌}
use native.Mathlib.Omega.{arith}
use text.Mathlib.Text.{◌==◌}
use text.Mathlib.TextEquality.{eq_iff}
use lite_harness.Common.Tests.{if◌then◌else◌}

module _ {ℓ} {A : Type ℓ} where
  -- `SELECT * FROM t WHERE key = k`
  abbrev pub find_by : (A → String) → String → List A → Option A
  find_by key k [] = none
  find_by key k (x ∷ xs) = if key x == k then some x else find_by key k xs

  -- `UPDATE t SET ... WHERE test`
  abbrev pub update_where : (A → Bool) → (A → A) → List A → List A
  update_where p f [] = []
  update_where p f (x ∷ xs) = (if p x then f x else x) ∷ update_where p f xs

  -- `UPDATE t SET ... WHERE key = k`
  abbrev pub update_by : (A → String) → String → (A → A) → List A → List A
  update_by key k f xs = update_where (λ x. key x == k) f xs

  module _ (key : A → String) where
    -- A read after a write of the row `k` sees the new row at `k`, and nothing new elsewhere.
    pub find_by-update_by :
        (k j : String) (f : A → A) (keeps : (a : A) → key (f a) ≡ key a) (xs : List A)
        → find_by key j (update_by key k f xs)
          ≡ (if k == j then Option.map f (find_by key j xs) else find_by key j xs)
    find_by-update_by k j f keeps [] = ground arith
    find_by-update_by k j f keeps (x ∷ xs) = ground (
      arith,
      keeps x,
      eq_iff (key x) k,
      eq_iff (key x) j,
      eq_iff (key (f x)) j,
      eq_iff k j,
      find_by-update_by k j f keeps xs,
    )

    pub find_by-append :
        (k : String) (xs ys : List A)
        → find_by key k (xs ++ ys)
          ≡ elim (find_by key k xs) [ none ↦ find_by key k ys | some x ↦ some x ]
    find_by-append k [] ys = refl
    find_by-append k (x ∷ xs) ys = ground (arith, find_by-append k xs ys)

    pub key-find_by : (k : String) (xs : List A) (a : A) → find_by key k xs ≡ some a → key a ≡ k
    key-find_by k [] a h = cc
    key-find_by k (x ∷ xs) a h = ground (arith, eq_iff (key x) k, key-find_by k xs a)
