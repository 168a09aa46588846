-- ===== src/Events/Exec.antt =====
-- What the operations run in: the store's identifier counter, which a failed call keeps, and an
-- error or panic that ends the batch.
use pebble_bitmap_store_note.Prelude.{ℕ, Result, ok, err}

abbrev pub Exec {ℓ} : Type ℓ → Type ℓ
Exec A = ℕ → ℕ × Result A

abbrev pub continue {ℓ κ} : {A : Type ℓ} {B : Type κ} → ℕ × Result A → (A → Exec B) → ℕ × Result B
continue (n, err e) f = (n, err e)
continue (n, ok a) f = f a n

infixl 5 ◌>>=◌
abbrev pub ◌>>=◌ {ℓ κ} : {A : Type ℓ} {B : Type κ} → Exec A → (A → Exec B) → Exec B
m >>= f = λ n. continue (m n) f

-- A call that does not touch the counter.
abbrev pub call {ℓ} : {A : Type ℓ} → Result A → Exec A
call r = λ n. (n, r)

abbrev pub done {ℓ} : {A : Type ℓ} → A → Exec A
done a = λ n. (n, ok a)
