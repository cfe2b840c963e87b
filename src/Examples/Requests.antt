-- ===== src/Examples/Requests.antt =====
-- Single requests, a setup, and histories of the hub, at concrete values.
use masonic_core.Prelude.{◌&&◌}
use masonic_core.Prelude.{◌==◌}
use masonic_core.Prelude.{
  ℕ, ◌^◌, ◌≤◌, ◌<◌, ◌≡◌, refl, ◌≢◌, none, some, List, [], ◌∷◌, find_row, any_row, keep_rows,
}
use masonic_core.Text.{text, text_eq}
use masonic_core.Models.{User, PrivateMessage}
use masonic_core.World.{Outcome, ok, final, statement, read_random}
use masonic_core.Ws.Steps.{System, Reach, begin, connect, start, connects}
use masonic_core.Ws.{presence_notify, Notify, send_notify, register_locked}
use masonic_core.Ws.Registry.{member}
use masonic_core.Ws.Steps.{System, deliver, is_writer, sends, runs}
use masonic_core.Ws.Writes.{flushed, reach-writes}
use masonic_core.Prelude.{update_rows, true}
use masonic_core.Prelude.{All, ◌⊎◌}
use masonic_core.World.{Database}
use masonic_core.Store.Message.{touches, latest_per_partner}
use masonic_core.Inbox.Partners.{IsIncreasing}
use masonic_core.Inbox.Latest.{supersedes, inbox_latest}
use mathlib.Core.List.{Mem}
use masonic_core.Text.{Text}
use masonic_core.World.{next, stamp}
use masonic_core.Renaming.{update_settings-get_settings}
use masonic_core.Services.Admin as AdminService
use masonic_core.Services.Install.{key_installed}
use masonic_core.Store.Settings.{lookup}
use masonic_core.Config.{secure_cookies}
use masonic_core.Prelude.{negsuc, is_none}
use masonic_core.Sessions.Logout.{logout-clears}
use masonic_core.Ws.Refines.{
  Change, joins, parts, hub_history, pair_history, Refines, history-Refines,
}
use masonic_core.Ws.Drains.{Steps}
use masonic_core.Auth.Tokens.{UserInfo}
use masonic_core.Sessions.Logout.{logout-ends}
use masonic_core.Store.Session.{live_session}
use masonic_core.Services.Install
use masonic_core.Services.Install.{InstallInput, as_flag}
use masonic_core.Installation.{setup-once}
use masonic_core.Http.{Request, Response, Site, SendMessageRequest, message_body}
use masonic_core.Http.Answers.{json}
use masonic_core.Http.Accounts
use masonic_core.Http.Accounts.{with_cookie, cleared_cookie}
use masonic_core.Http.Messages
use masonic_core.Http.Input.{pagination}
use masonic_core.Web.Sending.{IsSent, send-IsSent}
use masonic_core.Web.Pages.{pagination-bounds}
use masonic_core.Auth.Password as Password
use masonic_core.Http.Input.{cookie_of}
use masonic_core.Services.Message as MessageService
use masonic_core.Services.Notification as NotificationService
use masonic_core.Services.Patterns.{email_re}
use masonic_core.Services.Patterns.{username_re}
use masonic_core.Store.Cascade.{has_user}
use masonic_core.Store.Message as MessageStore
use masonic_core.Store.Notification as NotificationStore
use masonic_core.Store.Settings as SettingsStore
use masonic_core.Store.User as UserStore
use masonic_core.Text.Regex.{match_string}
use masonic_core.Text.Runes.{rune_count}
use masonic_core.Text.Space.{trim_space}
use masonic_core.Examples.Data.{
  sample, sample_server, sample_db, site, request, alice, old_session, value_or,
}

abbrev comings : List Change
comings = parts 7 1 ∷ joins 8 1 ∷ joins 7 1 ∷ []

history-Refines_example :
    Refines
      (hub_history comings).0
      (hub_history comings).1
      (pair_history comings).0
      (pair_history comings).1
history-Refines_example = history-Refines comings

one_open : Reach (connect 7 1 start)
unfolding any_row
one_open = Reach.after begin (connects 7 1 refl refl)

abbrev greeting : Notify
greeting = presence_notify 1 true

abbrev queued : System
queued = record (connect 7 1 start) {
  hub = record (connect 7 1 start).hub { notify_ch = greeting ∷ [] };
  waiting = [];
}

abbrev greeted : System
greeted = deliver greeting (record queued { hub = record queued.hub { notify_ch = [] } })

has_greeting : Reach greeted
unfolding send_notify connect register_locked member
has_greeting =
    Reach.after (Reach.after one_open (sends greeting [] [] queued.hub refl refl refl))
      (runs greeting [] refl refl)

reach-writes_example :
    Steps greeted (record greeted { conns = update_rows (is_writer 7 1) flushed greeted.conns })
reach-writes_example = reach-writes 7 1 has_greeting

abbrev leaving_request : Request
leaving_request = record request { cookies = ([], text "old") ∷ [] }

logout-clears_example :
    ((Accounts.logout sample_server leaving_request site).0.status ≡ 204)
    × ((Accounts.logout sample_server leaving_request site).0.cookie
        ≡ some (record {
          name = sample_server.config.refresh_cookie_name;
          value = [];
          path = text "/";
          max_age = negsuc 0;
          http_only = true;
          secure = secure_cookies sample_server.config;
          same_site_lax = true;
        }))
logout-clears_example = logout-clears sample_server leaving_request site

logout-ends_example :
    ((at : ℕ) × ((Accounts.logout sample_server leaving_request site).1.world.db
        ≡ record site.world.db {
          sessions =
              update_rows
                (λ k. k.id == old_session.id && is_none k.revoked_at)
                (λ k. record k { revoked_at = some at })
                site.world.db.sessions;
        }))
    × ((later : ℕ)
        → live_session
            (text "old")
            later
            (Accounts.logout sample_server leaving_request site).1.world.db.sessions
          ≡ none)
unfolding cookie_of text_eq any_row live_session find_row
logout-ends_example =
    logout-ends sample_server leaving_request site b'o' (text "ld") old_session refl (λ n. refl)
      (refl, tt) refl

pagination-bounds_example :
    (1 ≤ (pagination request).0)
    × ((pagination request).0 ≤ 100)
    × ((pagination request).1 < 2 ^ 63)
pagination-bounds_example = pagination-bounds request

abbrev install_input : InstallInput
install_input = record {
  forum_name = text "Forum";
  admin_username = text "root";
  admin_email = text "r@b.c";
  admin_password = text "12345678";
}

abbrev first_setup : Outcome User
first_setup = Install.setup install_input sample

abbrev admin_user : User
admin_user = value_or alice first_setup

first_setup-ok : first_setup ≡ ok admin_user (final first_setup)
unfolding Install.setup SettingsStore.get statement trim_space rune_count match_string username_re
    email_re Password.hash read_random UserStore.create any_row text_eq UserStore.add_member_role
    keep_rows SettingsStore.set
first_setup-ok = refl

setup-once_example :
    Install.setup install_input (final first_setup) ≢ ok admin_user (final first_setup)
setup-once_example =
    setup-once install_input install_input sample (final first_setup) admin_user admin_user
      (final first_setup) (final first_setup) first_setup-ok refl

-- alice writes to bob.
abbrev bob : User
bob = record alice { id = 2; username = text "bob"; email = text "b@b.c" }

abbrev two_users : Site
two_users = record site {
  world = record sample { db = record sample_db { users = bob ∷ alice ∷ [] } };
}

abbrev from_alice : Request
from_alice = record request { user = some (record { id = 1; username = text "alice"; roles = [] }) }

abbrev sending : Response × Site
sending = Messages.send sample_server from_alice two_users

abbrev whisper : PrivateMessage
whisper = record {
  id = 1001;
  sender_id = 1;
  recipient_id = 2;
  body = text "Psst";
  read_at = none;
  created_at = 101;
}

sending-ok : sending ≡ (json 201 (message_body whisper), sending.1)
unfolding Messages.send MessageService.send trim_space rune_count UserStore.get_by_id statement
    find_row MessageStore.send any_row has_user NotificationService.on_private_message
    NotificationStore.create
sending-ok = refl

send-IsSent_example :
    (u : UserInfo) × (req : SendMessageRequest) × (from_alice.user ≡ some u)
    × (sample_server.decoders.send_message_request from_alice.payload ≡ some req)
    × IsSent sample_server two_users u req whisper sending.1
send-IsSent_example = send-IsSent sample_server from_alice two_users whisper sending.1 sending-ok

-- Two messages with one partner, and one with another.
abbrev letters : Database
letters = record sample_db {
  messages =
      record whisper { id = 1; created_at = 5 }
      ∷ (record whisper { id = 2; sender_id = 2; recipient_id = 1; created_at = 7 }
          ∷ (record whisper { id = 3; recipient_id = 4; created_at = 6 } ∷ []));
}

inbox_latest_example :
    All
      (λ l. ((l.sender_id ≡ 1) ⊎ (l.recipient_id ≡ 1)) × Mem l letters.messages)
      (latest_per_partner 1 (stamp sample) letters)
    × IsIncreasing 1 (latest_per_partner 1 (stamp sample) letters)
    × All
        (λ m.
          (m.sender_id ≡ 1) ⊎ (m.recipient_id ≡ 1)
          → any_row (supersedes m) (latest_per_partner 1 (stamp sample) letters) ≡ true)
        letters.messages
inbox_latest_example = inbox_latest 1 (stamp sample) letters

abbrev renamed : Outcome Text
renamed = AdminService.update_settings (text " Lodge ") sample

renamed-ok : renamed ≡ ok (text "Lodge") (final renamed)
unfolding AdminService.update_settings trim_space rune_count SettingsStore.set statement
renamed-ok = refl

update_settings-get_settings_example :
    ((s : Text) × (some (trim_space (text " Lodge ")) ≡ some s)
      × (AdminService.get_settings (final renamed) ≡ ok s (next (final renamed))))
    × (text "Lodge" ≡ trim_space (text " Lodge "))
    × (lookup key_installed (final renamed).db.settings ≡ lookup key_installed sample_db.settings)
    × ((final renamed).db ≡ record sample_db { settings = (final renamed).db.settings })
unfolding AdminService.update_settings trim_space rune_count SettingsStore.set statement
update_settings-get_settings_example =
    update_settings-get_settings (text " Lodge ") sample (text "Lodge") (final renamed)
      (final renamed) renamed-ok refl refl
