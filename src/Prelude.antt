-- ===== src/Prelude.antt =====
-- The names that the other modules share: the libraries', passed on, and those of the children.
mod Tests
mod Lists
mod ByteArrays
mod Words
mod Results
mod Tables
pub mod Sort
pub mod HashMap
pub mod LruCache
pub use Results.{Result, ok, err}
pub use Tests.*
pub use Lists.*
unfoldable pub use ByteArrays.{bytes_eq, bytes_leb}
pub use ByteArrays.{Bytes, bytes_eq_refl, bytes_eq_iff, bytes_leb_total, bytes_leb_trans}
pub use Tables.{all_below_lem}
unfoldable pub use Tables.{all_below}
pub use Words.{u64, u64_max, u8, saturating_add_u8, zeros}
unfoldable pub use Words.{to_le_bytes, to_be_bytes, from_le_bytes}
pub use Prim.Native.Nat.{ℕ, zero, suc, ◌+◌, ◌-◌, ◌*◌, ◌/◌, ◌%◌, ◌^◌, ◌≤◌, ◌<◌, min, max}
pub use mathlib.Core.Path.{◌≡◌, refl, sym, ap, fun_ext, subst, subst₂, ◌∙◌}
pub use mathlib.Core.Logic.{◌≢◌, ◌↔◌, ◌⊎◌, inl, inr}
pub use mathlib.Core.Bool.{Bool, true, false, not, ◌&&◌, ◌||◌}
pub use mathlib.Core.Option.{Option, none, some}
pub use mathlib.Core.List.{List, [], ◌∷◌, ◌++◌, map, Perm, append-nil, append_assoc}
pub use native.Mathlib.Omega.{arith}
