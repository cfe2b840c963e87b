-- ===== src/Store/Settings.antt =====
-- internal/store/settings.go
use masonic_core.Prelude.{◌≡◌, refl, Option, none, some, List, [], ◌∷◌, arith, if◌then◌else◌}
use mathlib.Core.Option
use masonic_core.Text.{Text, text_eq, text_eq_iff}
use masonic_core.World.{
  Setting, flag_value, text_value, bad_jsonb, row_not_found, M, pure, raise, ◌>>=◌, Stamp, rows,
  fault, Sql, statement,
}

unfoldable pub lookup : Text → List (Text × Setting) → Option Setting
lookup key [] = none
lookup key ((k, v) ∷ s) = if text_eq k key then some v else lookup key s

-- INSERT … ON CONFLICT (key) DO UPDATE
unfoldable pub upsert : Text → Setting → List (Text × Setting) → List (Text × Setting)
upsert key v [] = (key, v) ∷ []
upsert key v ((k, w) ∷ s) = if text_eq k key then (k, v) ∷ s else (k, w) ∷ upsert key v s

unfoldable pub scan_setting : Option Setting → M Setting
scan_setting none = raise row_not_found
scan_setting (some v) = pure v

unfoldable pub get : Text → M Setting
unfolding lookup scan_setting
get key = do row ← statement (λ st d. rows (lookup key d.settings) d); scan_setting row

-- What json.Marshal and the `jsonb` column make of a value, if the column takes it.
unfoldable pub jsonb_value : Stamp → Setting → Option Setting
jsonb_value st (flag_value b) = some (flag_value b)
jsonb_value st (text_value s) = Option.map text_value (st.jsonb s)

-- The INSERT, with the value read.
unfoldable pub set_with : Text → Option Setting → Sql (Unit {0})
unfolding upsert
set_with key none st d = fault bad_jsonb
set_with key (some v) st d = rows tt (record d { settings = upsert key v d.settings })

unfoldable pub set_value : Text → Setting → Sql (Unit {0})
unfolding jsonb_value set_with
set_value key v st d = set_with key (jsonb_value st v) st d

unfoldable pub set : Text → Setting → M (Unit {0})
unfolding set_value
set key v = statement (set_value key v)

-- A key that was set reads back; every other key keeps its value.
pub lookup-upsert :
    (key k : Text) (v : Setting) (s : List (Text × Setting))
    → lookup k (upsert key v s) ≡ (if text_eq key k then some v else lookup k s)
unfolding lookup upsert
lookup-upsert key k v [] = refl
lookup-upsert key k v ((j, w) ∷ s) =
    ground (arith, text_eq_iff j key, text_eq_iff j k, text_eq_iff key k, lookup-upsert key k v s)
