-- ===== src/Web/Rules.antt =====
-- Handlers that keep what is said of the tables, make only steps of the hub, and give answers of the
-- right shape: one rule for each way to build one.
use masonic_core.Prelude.{
  ℕ, ◌≤◌, ◌≡◌, refl, Bool, true, false, Option, none, some, List, [], ◌∷◌, arith, ◌==◌, any_row,
}
use masonic_core.Text.{Text}
use masonic_core.Models.{PrivateMessage, Notification}
use masonic_core.World.{Database, Claims, Error, Outcome, ok, err, M, final}
use masonic_core.World.Rules.{Keeps}
use masonic_core.Ws.{Notify}
use masonic_core.Ws.Steps.{Conn, Reach, after, posts, connects}
use masonic_core.Auth.Tokens.{UserInfo}
use masonic_core.Web.Reads.{parse-Keeps}
use masonic_core.Web.Answers.{IsAnswer, written, relayed, absent, core_error-IsAnswer}
use masonic_core.Http.{Request, Response, Server, Site, Action, Handler}
use masonic_core.Http.Answers.{
  reply, answer, attempt, or_refuse, parsed, stop_if, unauthorized, core, core_error,
}
use masonic_core.Http.Input.{with_user}
use masonic_core.Http.Gate.{identify, require_auth, require_role}
use masonic_core.Http.Messages.{notify, announce}
use masonic_core.Http.Media.{with_post}
use masonic_core.Http.Live.{fresh_id, open_client, upgraded}

-- What holds of an action on every site, whatever it answers.
pub record Serves (srv : Server) (P : Database → Type 0) (a : Action) : Type 0 where
  pub db : (s : Site) → P s.world.db → P (a s).1.world.db
  pub hub : (s : Site) → Reach s.system → Reach (a s).1.system
  pub shape : (s : Site) → IsAnswer srv (a s).0

fresh_id_bound : (cs : List Conn) (n : ℕ) → fresh_id cs ≤ n → any_row (λ c. c.id == n) cs ≡ false
unfolding fresh_id any_row
fresh_id_bound [] n h = refl
fresh_id_bound (c ∷ cs) n h = ground (arith, fresh_id_bound cs n)

module _ {srv : Server} {P : Database → Type 0} where
  pub Serves-reply : (r : Response) → IsAnswer srv r → Serves srv P (reply r)
  Serves-reply r i = record { db = λ s h. h; hub = λ s h. h; shape = λ s. i }

  pub Serves-core : (e : Error) → Serves srv P (core e)
  Serves-core e = Serves-reply (core_error e) (core_error-IsAnswer srv e)

  pub Serves-stop_if :
      (b : Bool) (r : Response) (a : Action)
      → IsAnswer srv r
      → Serves srv P a
      → Serves srv P (stop_if b r a)
  Serves-stop_if true r a i k = record { db = λ s h. h; hub = λ s h. h; shape = λ s. i }
  Serves-stop_if false r a i k = k

  pub Serves-notify : (n : Notify) (a : Action) → Serves srv P a → Serves srv P (notify n a)
  unfolding notify
  Serves-notify n a k = record {
    db = λ s h. k.db _ h;
    hub = λ s h. k.hub _ (after h (posts n refl));
    shape = λ s. k.shape _;
  }

module _ {ℓ} {A : Type ℓ} {srv : Server} {P : Database → Type 0} where
  module _ (bad : Error → Action) (good : A → Action) (kb : (e : Error) → Serves srv P (bad e))
      (kg : (a : A) → Serves srv P (good a)) where
    answer_db : (s : Site) (o : Outcome A) → P (final o).db → P (answer bad good s o).1.world.db
    answer_db s (ok a w) h = (kg a).db (record s { world = w }) h
    answer_db s (err e w) h = (kb e).db (record s { world = w }) h

    answer_hub : (s : Site) (o : Outcome A) → Reach s.system → Reach (answer bad good s o).1.system
    answer_hub s (ok a w) h = (kg a).hub (record s { world = w }) h
    answer_hub s (err e w) h = (kb e).hub (record s { world = w }) h

    answer_shape : (s : Site) (o : Outcome A) → IsAnswer srv (answer bad good s o).0
    answer_shape s (ok a w) = (kg a).shape (record s { world = w })
    answer_shape s (err e w) = (kb e).shape (record s { world = w })

  pub Serves-attempt :
      (m : M A) (bad : Error → Action) (good : A → Action)
      → Keeps P m
      → ((e : Error) → Serves srv P (bad e))
      → ((a : A) → Serves srv P (good a))
      → Serves srv P (attempt m bad good)
  Serves-attempt m bad good km kb kg = record {
    db = λ s h. answer_db bad good kb kg s (m s.world) (km.at s.world h);
    hub = λ s h. answer_hub bad good kb kg s (m s.world) h;
    shape = λ s. answer_shape bad good kb kg s (m s.world);
  }

  pub Serves-or_refuse :
      (o : Option A) (r : Response) (good : A → Action)
      → IsAnswer srv r
      → ((a : A) → Serves srv P (good a))
      → Serves srv P (or_refuse o r good)
  Serves-or_refuse none r good i k = record { db = λ s h. h; hub = λ s h. h; shape = λ s. i }
  Serves-or_refuse (some a) r good i k = k a

module _ {srv : Server} {P : Database → Type 0} where
  pub Serves-parsed :
      (raw : Text) (r : Response) (good : ℕ → Action)
      → IsAnswer srv r
      → ((id : ℕ) → Serves srv P (good id))
      → Serves srv P (parsed raw r good)
  Serves-parsed raw r good i k =
      let at : (s : Site) → Serves srv P (or_refuse (s.world.env.parse_uuid raw) r good) =
        λ s. Serves-or_refuse _ r good i k in
      record { db = λ s h. (at s).db s h; hub = λ s h. (at s).hub s h; shape = λ s. (at s).shape s }

  pub Serves-with_user :
      (r : Request) (good : UserInfo → Action)
      → ((u : UserInfo) → Serves srv P (good u))
      → Serves srv P (with_user r good)
  Serves-with_user r good k = Serves-or_refuse r.user unauthorized good (written refl absent) k

  pub Serves-with_post :
      (raw : Text) (good : Option ℕ → Action)
      → ((o : Option ℕ) → Serves srv P (good o))
      → Serves srv P (with_post raw good)
  unfolding with_post
  Serves-with_post [] good k = k none
  Serves-with_post (c ∷ raw) good k = search (Serves-parsed, k, written, absent)

  pub Serves-announce :
      (b : Bool) (id : ℕ) (m : PrivateMessage) (n : Notification) (good : Action)
      → Serves srv P good
      → Serves srv P (announce b id m n good)
  unfolding announce
  Serves-announce false id m n good k = k
  Serves-announce true id m n good k = Serves-notify _ _ (Serves-notify _ good k)

  -- A connection that opens is none of those before.
  pub Serves-open_client : (id : ℕ) → Serves srv P (open_client id)
  unfolding open_client
  Serves-open_client id = record {
    db = λ s h. h;
    hub = λ s h. after h (
        connects (fresh_id s.system.conns) id (fresh_id_bound s.system.conns _ (omega arith)) refl);
    shape = λ s. written refl absent;
  }

  Serves-upgraded_to :
      (o : Option Response) (a : Action)
      → ((r : Response) → o ≡ some r → IsAnswer srv r)
      → Serves srv P a
      → Serves srv P (upgraded o a)
  Serves-upgraded_to none a i k = k
  Serves-upgraded_to (some r) a i k = Serves-reply r (i r refl)

  pub Serves-upgraded :
      (q : Request) (a : Action) → Serves srv P a → Serves srv P (upgraded (srv.upgrade q) a)
  Serves-upgraded q a k = Serves-upgraded_to (srv.upgrade q) a (λ r e. relayed q e) k

  pub Serves-identify :
      (raw message : Text) (good : ℕ → Claims → Action)
      → ((id : ℕ) (c : Claims) → Serves srv P (good id c))
      → Serves srv P (identify srv raw message good)
  unfolding identify
  Serves-identify raw message good k =
      search (Serves-attempt, Serves-reply, Serves-parsed, parse-Keeps, k, written, absent)

  -- The guards pass on what the handler does.
  pub Serves-require_auth :
      (h : Handler) (r : Request)
      → ((q : Request) → Serves srv P (h q))
      → Serves srv P (require_auth srv h r)
  unfolding require_auth
  Serves-require_auth h r k = search (Serves-stop_if, Serves-identify, k, written, absent)

  pub Serves-require_role :
      (rs : List Text) (h : Handler) (r : Request)
      → ((q : Request) → Serves srv P (h q))
      → Serves srv P (require_role rs h r)
  unfolding require_role
  Serves-require_role rs h r k = search (Serves-or_refuse, Serves-stop_if, k, written, absent)

pub ruleset handler_rules = (
  Serves-reply, Serves-core, Serves-stop_if, Serves-attempt, Serves-or_refuse, Serves-parsed,
  Serves-with_user, Serves-with_post, Serves-announce, Serves-open_client, Serves-upgraded,
  Serves-identify,
)
