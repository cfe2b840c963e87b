-- ===== src/Installation.antt =====
-- The installation of a forum happens once.
use masonic_core.Prelude.{
  ◌≡◌, sym, ap, ◌∙◌, subst, ◌≢◌, inl, inr, Bool, true, false, Option, none, some, List, Bool-cases,
}
use masonic_core.Text.{Text, text_eq}
use masonic_core.Models.{User}
use masonic_core.World.{
  Stamp, Setting, flag_value, text_value, Database, World, already_installed, ok, M, final, ◌>>=◌,
  refuse_if, next, rows, statement,
}
use masonic_core.World.Rules.{
  Keeps, keeps_rules, Keeps-statement, continue-eq-ok, refuse_if-eq-ok, statement-eq-ok, ok-inj,
}
use masonic_core.Store.Settings
use masonic_core.Store.Settings.{lookup, upsert, lookup-upsert}
use masonic_core.Services.Install
use masonic_core.Services.Install.{
  InstallInput, InstallStatus, key_installed, key_forum_name, as_flag, as_text, got_or, get_or,
}

abbrev pub IsInstalled : Database → Type 0
IsInstalled d = lookup key_installed d.settings ≡ some (flag_value true)

-- Where the action succeeds, the tables satisfy `P` afterwards, whatever they were before.
record Reaches {ℓ} {A : Type ℓ} (P : Database → Type 0) (m : M A) : Type ℓ where
  at : (w : World) (a : A) (w' : World) → m w ≡ ok a w' → P w'.db

Keeps-ok {ℓ} :
    {A : Type ℓ} {P : Database → Type 0} (m : M A)
    → Keeps P m
    → (w : World) (a : A) (w' : World) → m w ≡ ok a w'
    → P w.db
    → P w'.db
Keeps-ok {P = P} m k w a w' h p = subst (λ o. P (final o).db) h (k.at w p)

module _ {ℓ κ} {A : Type ℓ} {B : Type κ} {P : Database → Type 0} (m : M A) (f : A → M B) where
  Reaches-last : ((a : A) → Reaches P (f a)) → Reaches P (m >>= f)
  Reaches-last k = record {
    at = λ w b w' h. let (a, v, _, g) = continue-eq-ok (m w) f b w' h in (k a).at v b w' g;
  }

  Reaches-first : Reaches P m → ((a : A) → Keeps P (f a)) → Reaches P (m >>= f)
  Reaches-first r k = record {
    at = λ w b w' h.
        let (a, v, e, g) = continue-eq-ok (m w) f b w' h in
        Keeps-ok (f a) (k a) v b w' g (r.at w a v e);
  }

installs-Reaches : Reaches IsInstalled (Settings.set key_installed (flag_value true))
unfolding Settings.set Settings.set_value Settings.set_with Settings.jsonb_value text_eq
installs-Reaches = record {
  at = λ w a w' h.
      let (d, e, same) =
        statement-eq-ok (Settings.set_value key_installed (flag_value true)) w a w' h in
      let is : w'.db
          ≡ record w.db { settings = upsert key_installed (flag_value true) w.db.settings } =
        cc in
      rw is (lookup-upsert key_installed key_installed (flag_value true) w.db.settings);
}

-- Another setting than the flag leaves the flag.
name_with :
    (o : Option Setting) (st : Stamp) (d : Database) (a : Unit {0}) (d' : Database)
    → Settings.set_with key_forum_name o st d ≡ rows a d'
    → lookup key_installed d'.settings ≡ lookup key_installed d.settings
unfolding Settings.set_with text_eq
name_with none st d a d' e = cc
name_with (some v) st d a d' e =
    let is : d' ≡ record d { settings = upsert key_forum_name v d.settings } = cc in
    rw is (lookup-upsert key_forum_name key_installed v d.settings)

name-Keeps : (name : Text) → Keeps IsInstalled (Settings.set key_forum_name (text_value name))
unfolding Settings.set Settings.set_value
name-Keeps name = Keeps-statement (Settings.set_value key_forum_name (text_value name)) (record {
  at = λ st d a d' e p. name_with (Settings.jsonb_value st (text_value name)) st d a d' e ∙ p;
})

setup-Reaches : (input : InstallInput) → Reaches IsInstalled (Install.setup input)
unfolding Install.setup Install.install
setup-Reaches input =
    search (Reaches-last, Reaches-first, installs-Reaches, name-Keeps, keeps_rules) depth 24

-- Reading the flag of an installed forum.
flag-true :
    (w : World) (b : Bool) (v : World)
    → IsInstalled w.db
    → get_or false key_installed as_flag w ≡ ok b v
    → b ≡ true
unfolding get_or got_or Settings.get Settings.scan_setting statement
flag-true w b v i h = elim (Bool-cases (w.env.outage w.calls)) [
  | inl q ↦ cc (rw q at h)
  | inr q ↦ sym (ok-inj true b (next w) v (rw (q, i) at h)).0
]

setup_refused :
    (input : InstallInput) (w : World) (u : User) (w' : World)
    → IsInstalled w.db
    → Install.setup input w ≢ ok u w'
unfolding Install.setup Install.status
setup_refused input w u w' i h =
    let (st, v, e, g) = continue-eq-ok (Install.status w) _ u w' h in
    let (_, v1, e1, _) = continue-eq-ok (refuse_if st.installed already_installed v) _ u w' g in
    let (off, _) = refuse_if-eq-ok st.installed already_installed v _ v1 e1 in
    let (b, v2, e2, g2) = continue-eq-ok (get_or false key_installed as_flag w) _ st v e in
    let on = flag-true w b v2 i e2 in
    let (n, v3, e3, g3) = continue-eq-ok (get_or none key_forum_name as_text v2) _ st v g2 in
    let (is, _) = ok-inj _ st v3 v g3 in
    let same : st.installed ≡ b = ap (λ (t : InstallStatus). t.installed) (sym is) in cc

-- A setup that succeeds is the last one: no setup succeeds on tables with the settings that it left,
-- with whatever input, however the other tables have changed and whatever fails.
pub setup-once :
    (input again : InstallInput) (w v : World) (u x : User) (w' v' : World)
    → Install.setup input w ≡ ok u w'
    → v.db.settings ≡ w'.db.settings
    → Install.setup again v ≢ ok x v'
setup-once input again w v u x w' v' h same = setup_refused again v x v' (
    ap (λ (t : List (Text × Setting)). lookup key_installed t) same
    ∙ (setup-Reaches input).at w u w' h)
