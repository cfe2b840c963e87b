-- ===== src/Examples/Errors.antt =====
-- A group renamed to the name of another.
use masonic_core.Prelude.{◌≡◌, refl, ◌⊎◌, false, none, [], any_row, pos}
use masonic_core.Text.{Text, text, text_eq, text_eq_iff, to_lower, has_prefix, has_byte, is_listed}
use masonic_core.Models.{Group, NewGroup}
use masonic_core.World.{
  Fault, unique_violation, group_not_found, invalid_input, failure, Outcome, err, final, statement,
}
use masonic_core.Services.Group as GroupService
use masonic_core.Services.Group.{is_acceptable}
use masonic_core.Access.Errors.{update_group-errors}
use masonic_core.Examples.Data.{sample}

abbrev taken_name : NewGroup
taken_name = record {
  name = text "Lounge";
  slug = text "annex";
  description = [];
  parent_id = none;
  sort_order = pos 0;
}

abbrev renamed : Outcome Group
renamed = GroupService.update 11 taken_name sample

renamed-err : renamed ≡ err (failure unique_violation) (final renamed)
unfolding GroupService.update masonic_core.Text.Space.trim_space masonic_core.Text.Runes.rune_count
    masonic_core.Text.Regex.match_string masonic_core.Services.Patterns.slug_re
    masonic_core.Store.Group.update statement masonic_core.Store.Cascade.has_group any_row text_eq
renamed-err = refl

update_group-errors_example :
    ((failure unique_violation ≡ invalid_input) × (is_acceptable taken_name ≡ false))
    ⊎ (failure unique_violation ≡ group_not_found)
    ⊎ ((f : Fault) × (failure unique_violation ≡ failure f))
update_group-errors_example =
    update_group-errors 11 taken_name sample (failure unique_violation) (final renamed) renamed-err
