-- ===== src/Web/Guards.antt =====
-- What the guards of a route let through.
use masonic_core.Prelude.{
  ℕ, ◌≡◌, refl, ◌≢◌, ◌⊎◌, inl, inr, Bool, true, false, none, some, [], ◌∷◌, Bool-cases,
  Option-cases,
}
use masonic_core.Models.{role_admin}
use masonic_core.World.{Claims, next, time_now}
use masonic_core.Config.{is_empty}
use masonic_core.Auth.Tokens.{UserInfo, parse}
use masonic_core.Services.Roles.{has_role}
use masonic_core.Http.{Request, Response, Server, Site, Action, Handler}
use masonic_core.Http.Input.{bearer_token}
use masonic_core.Http.Gate.{identify, require_auth, require_role}
use masonic_core.Http.Routes.{
  Route, Guard, anyone, signed_in, admin, guard, handler, guarded, serve,
}

-- The bearer token of the request is there, opens under the secret and the issuer of the configuration
-- at the time of the request, and its claims name the user.
pub record IsToken (srv : Server) (r : Request) (s : Site) (u : UserInfo) : Type 0 where
  pub claims : Claims
  pub present : is_empty (bearer_token r.authorization) ≡ false
  pub opens :
      s.world.env.open_token srv.config.jwt_secret srv.config.jwt_issuer
        (s.world.env.clock s.world.calls)
        (bearer_token r.authorization)
      ≡ some claims
  pub subject : s.world.env.parse_uuid claims.subject ≡ some u.id
  pub username : u.username ≡ claims.username
  pub roles : u.roles ≡ claims.roles

-- RequireRole(models.RoleAdmin), where the guard has it.
abbrev pub may_pass : Guard → UserInfo → Bool
may_pass admin u = has_role u.roles (role_admin ∷ [])
may_pass _ u = true

-- A refusal of a status that changes neither the tables, the bucket nor the hub.
pub record IsRefused (code : ℕ) (s : Site) (o : Response × Site) : Type 0 where
  pub status : o.0.status ≡ code
  pub db : o.1.world.db ≡ s.world.db
  pub bucket : o.1.world.bucket ≡ s.world.bucket
  pub system : o.1.system ≡ s.system

-- The handler as it runs for a user, after the clock was read for the token.
abbrev pub run_as : Handler → Request → UserInfo → Action
run_as h r u s = h (record r { user = some u }) (record s { world = next s.world })

no_subject :
    (srv : Server) (r : Request) (s : Site) (c : Claims) (u : UserInfo)
    → s.world.env.open_token srv.config.jwt_secret srv.config.jwt_issuer
        (s.world.env.clock s.world.calls)
        (bearer_token r.authorization)
      ≡ some c
    → s.world.env.parse_uuid c.subject ≡ none
    → ¬ IsToken srv r s u
no_subject srv r s c u o n t =
    let q = t.opens in
    let i = t.subject in
    let same : t.claims ≡ c = cc in
    let j : s.world.env.parse_uuid c.subject ≡ some u.id = rw same at i in cc

-- RequireAuth: either the handler runs for the user of the token, or nobody is the user of one.
require_auth-cases :
    (srv : Server) (h : Handler) (r : Request) (s : Site)
    → ((u : UserInfo) × IsToken srv r s u × (require_auth srv h r s ≡ run_as h r u s))
      ⊎ (((u : UserInfo) → ¬ IsToken srv r s u) × IsRefused 401 s (require_auth srv h r s))
unfolding require_auth identify parse time_now
require_auth-cases srv h r s = elim (Bool-cases (is_empty (bearer_token r.authorization))) [
  | inl e ↦
      inr (λ u t. cc, rw e (record { status = refl; db = refl; bucket = refl; system = refl }))
  | inr p ↦
      elim (Option-cases (
        s.world.env.open_token srv.config.jwt_secret srv.config.jwt_issuer
          (s.world.env.clock s.world.calls) (bearer_token r.authorization))) [
            | inl n ↦ inr (
              λ u t. let q = t.opens in cc,
              rw (p, n) (record { status = refl; db = refl; bucket = refl; system = refl }),
            )
            | inr (c, o) ↦ elim (Option-cases (s.world.env.parse_uuid c.subject)) [
              | inl n ↦ inr (
                λ u t. no_subject srv r s c u o n t,
                rw (p, o, n) (record { status = refl; db = refl; bucket = refl; system = refl }),
              )
              | inr (id, i) ↦ inl (
                record { id = id; username = c.username; roles = c.roles },
                record {
                  claims = c;
                  present = p;
                  opens = o;
                  subject = i;
                  username = refl;
                  roles = refl;
                },
                rw (p, o, i) refl,
              )
            ]
          ]
]

-- RequireAuth before RequireRole(models.RoleAdmin).
admin-cases :
    (srv : Server) (h : Handler) (r : Request) (s : Site) (u : UserInfo)
    → require_auth srv (require_role (role_admin ∷ []) h) r s
      ≡ run_as (require_role (role_admin ∷ []) h) r u s
    → ((may_pass admin u ≡ true)
        × (require_auth srv (require_role (role_admin ∷ []) h) r s ≡ run_as h r u s))
      ⊎ ((may_pass admin u ≡ false)
          × IsRefused 403 s (require_auth srv (require_role (role_admin ∷ []) h) r s))
unfolding require_role
admin-cases srv h r s u e = elim (Bool-cases (may_pass admin u)) [
  | inl a ↦ inl (a, rw (e, a) refl)
  | inr a ↦ inr (a, rw (e, a) (record { status = refl; db = refl; bucket = refl; system = refl }))
]

-- What becomes of a request `r` to a handler `h` behind the guard `g`: the handler runs for the user of
-- the token, or nobody is the user of a token, or the user is no administrator where the guard wants one.
pub data Passage (srv : Server) (g : Guard) (h : Handler) (r : Request) (s : Site)
    (o : Response × Site) : Type 0 where
  admitted :
      (u : UserInfo)
      → IsToken srv r s u
      → may_pass g u ≡ true
      → o ≡ run_as h r u s
      → Passage srv g h r s o
  unknown : ((u : UserInfo) → ¬ IsToken srv r s u) → IsRefused 401 s o → Passage srv g h r s o
  no_administrator :
      (u : UserInfo)
      → IsToken srv r s u
      → may_pass g u ≡ false
      → IsRefused 403 s o
      → Passage srv g h r s o

guarded-Passage :
    (srv : Server) (g : Guard) (h : Handler) (r : Request) (s : Site)
    → g ≢ anyone
    → Passage srv g h r s (guarded srv g h r s)
unfolding guarded
guarded-Passage srv anyone h r s g = absurd (g refl)
guarded-Passage srv signed_in h r s g = elim (require_auth-cases srv h r s) [
  | inl (u, t, e) ↦ admitted u t refl e
  | inr (n, f) ↦ unknown n f
]
guarded-Passage srv admin h r s g =
    elim (require_auth-cases srv (require_role (role_admin ∷ []) h) r s) [
      | inl (u, t, e) ↦ elim (admin-cases srv h r s u e) [
        | inl (a, q) ↦ admitted u t a q
        | inr (a, f) ↦ no_administrator u t a f
      ]
      | inr (n, f) ↦ unknown n f
    ]

-- A request for a route behind a guard has one of three ends. Its bearer token opens, at the time of
-- the request, to claims whose subject is an identifier, and has the role of an administrator if the
-- route is for administrators: then the handler of the route runs for exactly the user of the claims.
-- Or nobody is the user of such a token, and the answer is 401; or the role is missing, and the answer
-- is 403; both leave the tables, the bucket and the hub as they are.
pub serve-Passage :
    (srv : Server) (route : Route) (r : Request) (s : Site)
    → guard route ≢ anyone
    → Passage srv
        (guard route)
        (handler srv route)
        (record r { user = none })
        s
        (serve srv route r s)
unfolding serve
serve-Passage srv route r s g = guarded-Passage srv (guard route) (handler srv route) _ s g
