-- ===== src/Web/Sending.antt =====
-- What a request that sends a private message does when it is answered with the message.
use masonic_core.Prelude.{
  Option, none, ℕ, ◌≡◌, refl, sym, ap, ◌∙◌, subst, ◌≢◌, Bool, true, false, ◌||◌, some, ◌∷◌, arith,
  ltb, ◌==◌, if◌then◌else◌,
}
use masonic_core.Text.{Text, text}
use masonic_core.Models.{
  Payload, User, PrivateMessage, NewPrivateMessage, pm_payload, Notification, NewNotification,
}
use masonic_core.World.{
  Database, World, Error, user_not_found, invalid_input, ok, M, handle, ◌>>=◌, refuse_if,
  is_not_found, missing_as, Stamp, stamp, rows,
}
use masonic_core.World.Rules.{continue-eq-ok, resume-eq-ok, refuse_if-eq-ok, statement-eq-ok}
use masonic_core.Ws.{pm, notification}
use masonic_core.Ws.Steps.{System}
use masonic_core.Auth.Tokens.{UserInfo}
use masonic_core.Store.User
use masonic_core.Store.Message
use masonic_core.Store.Notification
use masonic_core.Sessions.Refresh.{user-eq-ok}
use masonic_core.Services.Message.{max_pm_body_length}
use masonic_core.Text.Runes.{rune_count}
use masonic_core.Config.{is_empty}
use masonic_core.Services.Message as MessageService
use masonic_core.Services.Notification as NotificationService
use masonic_core.Http.{Request, Response, Server, Site, SendMessageRequest, message_body}
use masonic_core.Http.Answers.{reply, json, attempt, core, core_error, server_error}
use masonic_core.Http.Messages
use masonic_core.Web.Inversion.{answer-eq, or_refuse-eq, stop_if-eq}
use masonic_core.Text.Space.{trim_space}
use masonic_core.Http.Messages.{to_user, announce}

core_error-ne : (e : Error) (m : PrivateMessage) → core_error e ≢ json 201 (message_body m)
unfolding core_error
core_error-ne invalid_input m h = cc
core_error-ne e m h = cc

-- The rows of a message and of its notification.
insert_message-eq-rows :
    (nm : NewPrivateMessage) (st : Stamp) (d : Database) (m : PrivateMessage) (d' : Database)
    → Message.insert_message nm st d ≡ rows m d'
    → (m.sender_id ≡ nm.sender_id)
      × (m.recipient_id ≡ nm.recipient_id)
      × (d' ≡ record d { messages = m ∷ d.messages })
unfolding Message.insert_message Message.new_row
insert_message-eq-rows nm st d m d' h = ground arith

insert_with-eq-rows :
    (nn : NewNotification) (o : Option Payload) (st : Stamp) (d : Database) (n : Notification)
    (d' : Database)
    → Notification.insert_with nn o st d ≡ rows n d'
    → (n.user_id ≡ nn.user_id)
      × (n.kind ≡ nn.kind)
      × (d' ≡ record d { notifications = n ∷ d.notifications })
unfolding Notification.insert_with Notification.new_row
insert_with-eq-rows nn none st d n d' h = cc
insert_with-eq-rows nn (some payload) st d n d' h = ground arith

insert_notification-eq-rows :
    (nn : NewNotification) (st : Stamp) (d : Database) (n : Notification) (d' : Database)
    → Notification.insert_notification nn st d ≡ rows n d'
    → (n.user_id ≡ nn.user_id)
      × (n.kind ≡ nn.kind)
      × (d' ≡ record d { notifications = n ∷ d.notifications })
unfolding Notification.insert_notification
insert_notification-eq-rows nn st d n d' h = insert_with-eq-rows nn _ st d n d' h

send-eq-ok :
    (sender recipient : ℕ) (body : Text) (w : World) (m : PrivateMessage) (w' : World)
    → MessageService.send sender recipient body w ≡ ok m w'
    → ((sender == recipient) ≡ false)
      × (m.sender_id ≡ sender)
      × (m.recipient_id ≡ recipient)
      × (w'.db ≡ record w.db { messages = m ∷ w.db.messages })
unfolding MessageService.send MessageService.send_trimmed Message.send
send-eq-ok sender recipient body w m w' h =
    let (_, v1, e1, g1) = continue-eq-ok _ _ m w' h in
    let (other, same1) = refuse_if-eq-ok (sender == recipient) invalid_input w _ v1 e1 in
    let trimmed = trim_space body in
    let bad = is_empty trimmed || ltb max_pm_body_length (rune_count trimmed) in
    let nm : NewPrivateMessage = record {
      sender_id = sender;
      recipient_id = recipient;
      body = trimmed;
    } in
    let store : User → M PrivateMessage = λ _. Message.send nm in
    let (_, v2, e2, g2) =
      continue-eq-ok (refuse_if bad invalid_input v1)
        (λ _. handle (User.get_by_id recipient) (missing_as user_not_found) >>= store) m w' g1 in
    let (_, same2) = refuse_if-eq-ok bad invalid_input v1 _ v2 e2 in
    let (u, v3, e3, g3) =
      continue-eq-ok (handle (User.get_by_id recipient) (missing_as user_not_found) v2) store m w'
        g2 in
    let (_, same3) =
      user-eq-ok recipient v2 u v3
        (resume-eq-ok _ (λ e. if is_not_found e then user_not_found else e) u v3 e3) in
    let (d, q, same4) = statement-eq-ok (Message.insert_message nm) v3 m w' g3 in
    let (from, to, stored) = insert_message-eq-rows nm (stamp v3) v3.db m d q in
    let here : v3.db ≡ w.db =
      ap (λ (v : World). v.db) same3 ∙ ap (λ (v : World). v.db) (same2 ∙ same1) in
    (
      other,
      from,
      to,
      ap (λ (v : World). v.db) same4
          ∙ stored
          ∙ ap (λ (b : Database). record b { messages = m ∷ b.messages }) here,
    )

on_message-eq-ok :
    (m : PrivateMessage) (w : World) (n : Notification) (w' : World)
    → NotificationService.on_private_message m w ≡ ok n w'
    → (n.user_id ≡ m.recipient_id)
      × (w'.db ≡ record w.db { notifications = n ∷ w.db.notifications })
unfolding NotificationService.on_private_message Notification.create
on_message-eq-ok m w n w' h =
    let nn : NewNotification = record {
      user_id = m.recipient_id;
      kind = text "pm";
      payload = some (pm_payload m.id m.sender_id (NotificationService.preview m.body));
    } in
    let (d, q, same) = statement-eq-ok (Notification.insert_notification nn) w n w' h in
    let (whose, _, stored) = insert_notification-eq-rows nn (stamp w) w.db n d q in
    (whose, ap (λ (v : World). v.db) same ∙ stored)

-- The hub with the two events of a message that arrives waiting, the later one first.
abbrev pub announced : Bool → ℕ → PrivateMessage → Notification → System → System
announced false id m n s = s
announced true id m n s = record s {
  waiting =
      to_user id (record { kind = text "notification"; payload = notification n })
      ∷ (to_user id (record { kind = text "pm"; payload = pm m }) ∷ s.waiting);
}

announce-eq :
    (b : Bool) (id : ℕ) (m : PrivateMessage) (n : Notification) (x : Response) (s : Site)
    → announce b id m n (reply x) s ≡ (x, record s { system = announced b id m n s.system })
unfolding announce Messages.notify
announce-eq false id m n x s = refl
announce-eq true id m n x s = refl

-- A message `m` of the user `u` that was sent from the site `s`, with its notification.
pub record IsSent (srv : Server) (s : Site) (u : UserInfo) (req : SendMessageRequest)
    (m : PrivateMessage) (s' : Site) : Type 0 where
  pub note : Notification
  pub named : (req.recipient_id == 0) ≡ false
  pub other : (u.id == req.recipient_id) ≡ false
  pub sender : m.sender_id ≡ u.id
  pub recipient : m.recipient_id ≡ req.recipient_id
  pub notified : note.user_id ≡ req.recipient_id
  pub db : s'.world.db ≡ record s.world.db {
    messages = m ∷ s.world.db.messages;
    notifications = note ∷ s.world.db.notifications;
  }
  pub system : s'.system ≡ announced srv.has_hub req.recipient_id m note s.system

body-inj : (a b : PrivateMessage) → json 201 (message_body a) ≡ json 201 (message_body b) → a ≡ b
body-inj a b h = let e : message_body a ≡ message_body b = ap (λ (r : Response). r.body) h in cc

sent :
    (srv : Server) (s : Site) (u : UserInfo) (req : SendMessageRequest) (a m : PrivateMessage)
    (n : Notification) (w1 w2 : World) (s' : Site)
    → (req.recipient_id == 0) ≡ false
    → MessageService.send u.id req.recipient_id req.body s.world ≡ ok a w1
    → NotificationService.on_private_message a w1 ≡ ok n w2
    → announce srv.has_hub req.recipient_id a n
        (reply (json 201 (message_body a)))
        (record s { world = w2 })
      ≡ (json 201 (message_body m), s')
    → IsSent srv s u req m s'
sent srv s u req a m n w1 w2 s' named e1 e2 h =
    let (other, from, to, stored) = send-eq-ok u.id req.recipient_id req.body s.world a w1 e1 in
    let (whose, noted) = on_message-eq-ok a w1 n w2 e2 in
    let t : Site = record s {
      world = w2;
      system = announced srv.has_hub req.recipient_id a n s.system;
    } in
    let end : (json 201 (message_body a), t) ≡ (json 201 (message_body m), s') =
      sym (
        announce-eq srv.has_hub req.recipient_id a n (json 201 (message_body a))
          (record s { world = w2 }))
      ∙ h in
    let same : a ≡ m = body-inj a m (ap (λ (p : Response × Site). p.0) end) in
    subst (λ q. IsSent srv s u req q s') same
      (subst (λ q. IsSent srv s u req a q) (ap (λ (p : Response × Site). p.1) end)
        (record {
          note = n;
          named = named;
          other = other;
          sender = from;
          recipient = to;
          notified = whose ∙ to;
          db =
              noted
              ∙ ap (λ (b : Database). record b { notifications = n ∷ b.notifications }) stored;
          system = refl;
        }))

-- An answer 201 with a message to a request that sends one: the message is that of the user to the
-- recipient in the request, who is another user and not the nil one; the message and a notification of
-- the recipient are stored and nothing else in the tables changes; and if there is a hub, exactly two
-- events are posted to it, first the message and then the notification, both for the recipient alone.
pub send-IsSent :
    (srv : Server) (r : Request) (s : Site) (m : PrivateMessage) (s' : Site)
    → Messages.send srv r s ≡ (json 201 (message_body m), s')
    → (u : UserInfo) × (req : SendMessageRequest) × (r.user ≡ some u)
      × (srv.decoders.send_message_request r.payload ≡ some req)
      × IsSent srv s u req m s'
unfolding Messages.send
send-IsSent srv r s m s' h =
    let x = json 201 (message_body m) in
    let (u, is, h1) = or_refuse-eq r.user _ _ s x s' (λ e. cc) h in
    let (req, read, h2) =
      or_refuse-eq (srv.decoders.send_message_request r.payload) _ _ s x s' (λ e. cc) h1 in
    let (named, h3) = stop_if-eq (req.recipient_id == 0) _ _ s x s' (λ e. cc) h2 in
    let (m1, w1, e1, h4) =
      answer-eq core
        (λ msg.
          attempt (NotificationService.on_private_message msg) (λ e. reply (server_error e))
            λ n. announce srv.has_hub req.recipient_id msg n (reply (json 201 (message_body msg))))
        s (MessageService.send u.id req.recipient_id req.body s.world) x s'
        (λ e t. core_error-ne e m) h3 in
    let (n, w2, e2, h5) =
      answer-eq (λ e. reply (server_error e))
        (λ n. announce srv.has_hub req.recipient_id m1 n (reply (json 201 (message_body m1))))
        (record s { world = w1 }) (NotificationService.on_private_message m1 w1) x s' (λ e t q. cc)
        h4 in
    (u, req, is, read, sent srv s u req m1 m n w1 w2 s' named e1 e2 h5)
