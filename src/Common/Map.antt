-- ===== src/Common/Map.antt =====
-- The maps of libqb (`qb_map_get`, `qb_map_put`, `qb_map_rm`) over texts, as association lists. A key
-- stands in a list at most once; a new key goes to the end.
use Prim.Native.String.{String}
use mathlib.Core.Path.{◌≡◌, refl}
use mathlib.Core.Bool.{Bool}
use mathlib.Core.List.{List, [], ◌∷◌}
use mathlib.Core.Option.{Option, none, some}
use native.Mathlib.Omega.{arith}
use text.Mathlib.Text.{◌==◌ as str_eq}
use text.Mathlib.TextEquality.{eq_iff}
use pacemaker_cloud.Common.Tests.{if◌then◌else◌}

-- `qb_map_t`.
abbrev pub QbMap {ℓ} : Type ℓ → Type ℓ
QbMap V = List (String × V)

module _ {ℓ} {V : Type ℓ} where
  unfoldable pub lookup : String → QbMap V → Option V
  lookup key [] = none
  lookup key (entry ∷ rest) = if str_eq entry.0 key then some entry.1 else lookup key rest

  unfoldable pub insert : String → V → QbMap V → QbMap V
  insert key new [] = (key, new) ∷ []
  insert key new (entry ∷ rest) =
      if str_eq entry.0 key then (key, new) ∷ rest else entry ∷ insert key new rest

  unfoldable pub erase : String → QbMap V → QbMap V
  erase key [] = []
  erase key (entry ∷ rest) = if str_eq entry.0 key then erase key rest else entry ∷ erase key rest

  -- Writing through the pointer that `qb_map_get` returns.
  unfoldable pub update : String → (V → V) → QbMap V → QbMap V
  update key f [] = []
  update key f (entry ∷ rest) =
      if str_eq entry.0 key
      then (entry.0, f entry.1) ∷ update key f rest
      else entry ∷ update key f rest

  pub lookup-insert :
      (key asked : String) (new : V) (entries : QbMap V)
      → lookup asked (insert key new entries)
        ≡ (if str_eq key asked then some new else lookup asked entries)
  unfolding lookup insert
  lookup-insert key asked new [] = refl
  lookup-insert key asked new (entry ∷ rest) =
      let rec = lookup-insert key asked new rest in
      ground (arith, rec, eq_iff entry.0 asked, eq_iff entry.0 key, eq_iff key asked)

  abbrev pub applied : Bool → (V → V) → Option V → Option V
  applied here f none = none
  applied here f (some old) = some (if here then f old else old)

  pub lookup-update :
      (key asked : String) (f : V → V) (entries : QbMap V)
      → lookup asked (update key f entries) ≡ applied (str_eq key asked) f (lookup asked entries)
  unfolding lookup update
  lookup-update key asked f [] = refl
  lookup-update key asked f (entry ∷ rest) =
      let rec = lookup-update key asked f rest in
      ground (arith, rec, eq_iff entry.0 asked, eq_iff entry.0 key, eq_iff key asked)
