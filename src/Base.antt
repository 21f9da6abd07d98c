-- ===== src/Base.antt =====
-- What the other modules share: the libraries' names, passed on, tests, lists and C strings.
pub mod Tests
pub mod Lists
pub mod Text
pub mod TextLaws
pub use Prim.Native.Nat.{ℕ, zero, suc, ◌+◌, ◌-◌, ◌*◌, ◌/◌, ◌%◌, ◌^◌, ◌≤◌, ◌<◌, min, max}
pub use mathlib.Core.Bool.{Bool, true, false, not, ◌&&◌, ◌||◌}
pub use mathlib.Core.List.{List, [], ◌∷◌, ◌++◌, append-nil, append_assoc, map}
pub use mathlib.Core.Logic.{◌≢◌, ◌↔◌, ◌⊎◌, inl, inr}
pub use mathlib.Core.Option.{Option, none, some}
pub use mathlib.Core.Path.{◌≡◌, refl, sym, ap, subst, ◌∙◌}
pub use native.Mathlib.Omega.{arith}
pub use Tests.{
  ltb, leb, ◌==◌, if◌then◌else◌, ltb→lt, lt→ltb, le→ltb_false, leb→le, le→leb, ==_iff, ==_refl,
  Bool-cases, Option-cases,
}
pub use Lists.{
  length, get_elem?, take, drop, length-append, length-take, length-drop, take-of_le, Every,
  Every-append,
}
pub use Text.{Bytes, codes, is_digit, is_space, ℤ, pos, negsuc, neg, long_max}
unfoldable pub use Text.{
  bytes_eq, starts_with, split_first, split_last, strip_slashes, digits, decimal, skip_spaces,
  read_digits, strtol,
}
pub use TextLaws.{
  bytes_eq_iff, Lacks, split_first-append, split_last-append, length-digits, length-decimal,
  length-digits-le, AllDigits, read_digits-digits, strtol-decimal, decimal-Lacks, NotSlashed,
  strip_slashes-slashes, strip_slashes_id, length-strip_slashes,
}

-- A chain of fallible steps.
infixl 5 ◌>>=◌
abbrev pub ◌>>=◌ {ℓ κ} : {A : Type ℓ} {B : Type κ} → Option A → (A → Option B) → Option B
none >>= f = none
some a >>= f = f a

infixl 5 ◌>>◌
abbrev pub ◌>>◌ {ℓ} : {B : Type ℓ} → Option (Unit {0}) → Option B → Option B
m >> k = m >>= λ _. k

abbrev pub guard : Bool → Option (Unit {0})
guard true = some tt
guard false = none

abbrev pub is_some {ℓ} : {A : Type ℓ} → Option A → Bool
is_some none = false
is_some (some _) = true

abbrev pub or_else {ℓ} : {A : Type ℓ} → Option A → A → A
or_else none d = d
or_else (some a) d = a
