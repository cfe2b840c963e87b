-- ===== src/Inputs.antt =====
-- Bounds on what is made of the texts of a request.
use masonic_core.Prelude.{
  ℕ, zero, suc, ◌≤◌, ◌≡◌, refl, ◌≢◌, inl, inr, Bool, true, false, ◌||◌, [], ◌∷◌, arith, ltb, leb,
  if◌then◌else◌, Bool-cases, length, take, length-append,
}
use masonic_core.Text.{Text, text, text_eq}
use masonic_core.Text.Space.{trim_space}
use masonic_core.Text.Paths.{base}
use masonic_core.Services.Notification.{preview, max_preview, ellipsis}
use masonic_core.Services.Media.{sanitize_filename, clip_name, max_filename_length}

length-take : (n : ℕ) (s : Text) → length (take n s) ≤ n
length-take zero s = omega arith
length-take (suc n) [] = omega arith
length-take (suc n) (c ∷ s) = omega (arith, length-take n s)

cut_long :
    (c : ℕ) (s : Text) (b : Bool)
    → b ≡ ltb max_filename_length (length (c ∷ s))
    → (length (if b then take max_filename_length (c ∷ s) else c ∷ s) ≤ max_filename_length)
      × ((if b then take max_filename_length (c ∷ s) else c ∷ s) ≢ [])
cut_long c s true h = (length-take max_filename_length (c ∷ s), λ e. cc)
cut_long c s false h = (ground arith, λ e. cc)

cut_name : (s : Text) → (length (clip_name s) ≤ max_filename_length) × (clip_name s ≢ [])
unfolding clip_name
cut_name [] = (omega arith, λ e. cc)
cut_name (c ∷ s) = elim (Bool-cases (text_eq (c ∷ s) (text ".") || text_eq (c ∷ s) (text "/"))) [
  | inl e ↦ rw e (omega arith, λ h. cc)
  | inr e ↦ rw e (cut_long c s _ refl)
]

-- Whatever name a client gives to a file, the name that is stored is not empty and has at most 160
-- bytes.
pub sanitize_filename-bounds :
    (name : Text) → (length (sanitize_filename name) ≤ 160) × (sanitize_filename name ≢ [])
unfolding sanitize_filename
sanitize_filename-bounds name = cut_name (base (trim_space name))

-- The preview of a message has at most 83 bytes, and a message of at most 80 bytes is its own preview.
pub preview-bounds : (s : Text) → (length (preview s) ≤ 83) × (length s ≤ 80 → preview s ≡ s)
unfolding preview
preview-bounds s = elim (Bool-cases (leb (length s) max_preview)) [
  | inl e ↦ rw e (ground arith, λ h. refl)
  | inr e ↦ rw e (
    ground (arith, length-append (take max_preview s) ellipsis, length-take max_preview s),
    λ h. ground arith,
  )
]
