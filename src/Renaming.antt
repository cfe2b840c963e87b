-- ===== src/Renaming.antt =====
-- The name of the forum: internal/services/admin.go over internal/store/settings.go.
use masonic_core.Prelude.{◌≡◌, refl, sym, ap, ◌∙◌, false, ◌||◌, Option, none, some, List, ltb}
use masonic_core.Text.{Text, text_eq}
use masonic_core.Config.{is_empty}
use masonic_core.Text.Runes.{rune_count}
use masonic_core.Text.Space.{trim_space}
use masonic_core.World.{
  Setting, text_value, Database, Stamp, World, invalid_input, refuse_if, ◌>>◌, pure, ok, next,
  stamp, rows, statement,
}
use masonic_core.World.Rules.{continue-eq-ok, refuse_if-eq-ok, statement-eq-ok, ok-inj}
use masonic_core.Store.Settings
use masonic_core.Store.Settings.{lookup, upsert, lookup-upsert}
use masonic_core.Services.Install.{key_installed, key_forum_name}
use masonic_core.Services.Admin as AdminService

-- What setting a text leaves.
set_text :
    (key name : Text) (o : Option Text) (st : Stamp) (d : Database) (a : Unit {0}) (d' : Database)
    → st.jsonb name ≡ o
    → Settings.set_value key (text_value name) st d ≡ rows a d'
    → (s : Text) × (st.jsonb name ≡ some s)
      × (d' ≡ record d { settings = upsert key (text_value s) d.settings })
unfolding Settings.set_value Settings.set_with Settings.jsonb_value
set_text key name none st d a d' q h = cc (rw q at h)
set_text key name (some s) st d a d' q h = (s, q, cc (rw q at h))

read_name :
    (s : Text) (v : World)
    → v.env.outage v.calls ≡ false
    → lookup key_forum_name v.db.settings ≡ some (text_value s)
    → AdminService.get_settings v ≡ ok s (next v)
unfolding AdminService.get_settings AdminService.forum_name_of Settings.get Settings.scan_setting
    statement
read_name s v out is = rw (out, is) refl

-- A change of the forum's name that succeeds is read back: as long as the settings are as it left
-- them, a read that does not fail gives the new name without the spaces around it, as `jsonb` holds
-- it, and changes nothing. The change has left the other tables and the flag of the installation as
-- they were, and answers with the name.
pub update_settings-get_settings :
    (name : Text) (w : World) (x : Text) (w' v : World)
    → AdminService.update_settings name w ≡ ok x w'
    → v.db.settings ≡ w'.db.settings
    → v.env.outage v.calls ≡ false
    → ((s : Text) × (w.env.jsonb (trim_space name) ≡ some s)
        × (AdminService.get_settings v ≡ ok s (next v)))
      × (x ≡ trim_space name)
      × (lookup key_installed w'.db.settings ≡ lookup key_installed w.db.settings)
      × (w'.db ≡ record w.db { settings = w'.db.settings })
unfolding AdminService.update_settings AdminService.set_forum_name Settings.set text_eq
update_settings-get_settings name w x w' v h same out =
    let trimmed = trim_space name in
    let bad = is_empty trimmed || ltb AdminService.max_forum_name (rune_count trimmed) in
    let (_, v1, e1, g1) =
      continue-eq-ok (refuse_if bad invalid_input w)
        (λ _. Settings.set key_forum_name (text_value trimmed) >> pure trimmed) x w' h in
    let (_, kept) = refuse_if-eq-ok bad invalid_input w _ v1 e1 in
    let (a, v2, e2, g2) =
      continue-eq-ok (Settings.set key_forum_name (text_value trimmed) v1) (λ _. pure trimmed) x w'
        g1 in
    let (d, q, left) =
      statement-eq-ok (Settings.set_value key_forum_name (text_value (trim_space name))) v1 a v2
        e2 in
    let (s, taken, is) = set_text key_forum_name (trim_space name) _ (stamp v1) v1.db a d refl q in
    let (answer, last) = ok-inj _ x v2 w' g2 in
    let db : w'.db ≡ record w.db { settings = upsert key_forum_name (text_value s) w.db.settings } =
      ap (λ (u : World). u.db) (sym last ∙ left)
      ∙ is
      ∙ ap
          (λ (u : World). record u.db {
            settings = upsert key_forum_name (text_value s) u.db.settings;
          })
          kept in
    let settings : w'.db.settings ≡ upsert key_forum_name (text_value s) w.db.settings =
      ap (λ (b : Database). b.settings) db in
    (
      (
        s,
        sym (ap (λ (u : World). u.env.jsonb (trim_space name)) kept) ∙ taken,
        read_name s v out (
            ap (λ (t : List (Text × Setting)). lookup key_forum_name t) (same ∙ settings)
            ∙ lookup-upsert key_forum_name key_forum_name (text_value s) w.db.settings),
      ),
      sym answer,
      ap (λ (t : List (Text × Setting)). lookup key_installed t) settings
          ∙ lookup-upsert key_forum_name key_installed (text_value s) w.db.settings,
      db ∙ ap (λ (t : List (Text × Setting)). record w.db { settings = t }) (sym settings),
    )
