-- ===== src/Examples/Data.antt =====
-- A forum with one user, one group, one thread, one post and one attachment.
use masonic_core.Http.{Decoders, Server, Site, Request}
use masonic_core.Ws.Steps.{start}
use masonic_core.Text.{text_eq}
use masonic_core.Prelude.{if◌then◌else◌, true}
use masonic_core.World.{Claims}
use masonic_core.Models.{role_member}
use masonic_core.Prelude.{◌+◌, false, none, some, [], ◌∷◌, pos}
use masonic_core.Text.{text}
use masonic_core.Models.{status_active, User, Session, Group, Thread, Post, Attachment}
use masonic_core.World.{Database, Env, World, Outcome, ok, err}
use masonic_core.Config.{Config}

abbrev pub sample_env : Env
sample_env = record {
  outage = λ n. false;
  clock = λ n. 100 + n;
  uuid = λ n. 1000 + n;
  random = λ n k. n ∷ [];
  idkey = λ p s t m l k. 0 ∷ [];
  digest = λ t. t;
  sign = λ s c. text "token";
  open_token = λ s i n t. none;
  uuid_text = λ n. text "u";
  parse_uuid = λ t. none;
  lower = λ t. t;
  before = λ a b. false;
  inet_text = λ t. some t;
  jsonb = λ t. some t;
  tie = λ n a b. false;
}

abbrev pub alice : User
alice = record {
  id = 1;
  username = text "alice";
  email = text "a@b.c";
  password_hash = text "$argon2id$v=19$m=1,t=1,p=1$AA$AA";
  display_name = text "alice";
  avatar_url = [];
  status = status_active;
  created_at = 1;
  updated_at = 1;
  last_seen_at = none;
}

abbrev pub lounge : Group
lounge = record {
  id = 10;
  name = text "Lounge";
  slug = text "lounge";
  description = [];
  parent_id = none;
  sort_order = pos 0;
  created_at = 1;
  updated_at = 1;
}

abbrev pub annex : Group
annex = record lounge { id = 11; name = text "Annex"; slug = text "annex"; parent_id = some 10 }

abbrev pub hello : Thread
hello = record {
  id = 20;
  group_id = 10;
  author_id = 1;
  title = text "Hello";
  pinned = false;
  locked = false;
  views = 0;
  post_count = 1;
  last_post_at = some 2;
  created_at = 2;
  updated_at = 2;
}

abbrev pub first_post : Post
first_post = record {
  id = 30;
  thread_id = 20;
  author_id = 1;
  body = text "Hi";
  edited_by_id = none;
  edited_at = none;
  created_at = 2;
  updated_at = 2;
}

abbrev pub picture : Attachment
picture = record {
  id = 40;
  owner_id = 1;
  post_id = some 30;
  filename = text "p";
  content_type = text "image/png";
  size_bytes = 3;
  storage_key = text "k";
  public_url = text "u";
  created_at = 3;
  updated_at = 3;
}

abbrev pub old_session : Session
old_session = record {
  id = 50;
  user_id = 1;
  token_hash = text "old";
  user_agent = [];
  ip = none;
  created_at = 3;
  expires_at = 100000;
  revoked_at = none;
}

abbrev pub sample_db : Database
sample_db = record {
  settings = [];
  users = alice ∷ [];
  roles = [];
  user_roles = [];
  sessions = old_session ∷ [];
  groups = annex ∷ lounge ∷ [];
  threads = hello ∷ [];
  posts = first_post ∷ [];
  attachments = picture ∷ [];
  messages = [];
  notifications = [];
}

abbrev pub sample : World
sample = record { env = sample_env; calls = 0; db = sample_db; bucket = text "k" ∷ [] }

abbrev pub sample_config : Config
sample_config = record {
  app_env = [];
  http_addr = [];
  database_url = text "d";
  jwt_secret = text "s";
  jwt_issuer = text "i";
  access_ttl = 15;
  refresh_ttl = 1000;
  refresh_cookie_name = [];
  refresh_cookie_secure = false;
  s3_endpoint = [];
  s3_access_key = [];
  s3_secret_key = [];
  s3_bucket = [];
  s3_region = [];
  s3_use_ssl = false;
  s3_force_path_style = false;
  media_base_url = [];
}

-- The value of an action that succeeds.
abbrev pub value_or {ℓ} : {A : Type ℓ} → A → Outcome A → A
value_or x (ok a w) = a
value_or x (err e w) = x

-- A server that reads every body as the post "Hi", and upgrades every connection.
abbrev pub sample_decoders : Decoders
sample_decoders = record {
  register_request = λ t. none;
  login_request = λ t. none;
  group_request = λ t. none;
  create_thread_request = λ t. none;
  update_thread_request = λ t. none;
  post_request = λ t. some (text "Hi");
  send_message_request = λ t. some (record { recipient_id = 2; body = text "Psst" });
  update_user_request = λ t. none;
  update_settings_request = λ t. none;
  install_request = λ t. none;
}

abbrev pub sample_server : Server
sample_server = record {
  config = sample_config;
  decoders = sample_decoders;
  has_hub = true;
  backend = text "1";
  schema = 5;
  upgrade = λ r. none;
}

-- The claims of alice, which every token opens to, and every identifier is that of a user or a thread.
abbrev pub alice_claims : Claims
alice_claims = record {
  subject = text "1";
  username = text "alice";
  roles = role_member ∷ [];
  issuer = text "i";
  issued_at = 0;
  not_before = 0;
  expires_at = 1000;
}

abbrev pub web_env : Env
web_env = record sample_env {
  open_token = λ s i n t. some alice_claims;
  parse_uuid = λ t. if text_eq t (text "1") then some 1 else some 20;
}

abbrev pub web_sample : World
web_sample = record sample { env = web_env }

abbrev pub site : Site
site = record { world = web_sample; system = start }

-- A request with the token "x" for the thread 20.
abbrev pub request : Request
request = record {
  params = (text "threadID", text "20") ∷ [];
  query = (text "limit", text "5") ∷ (text "access_token", text "x") ∷ [];
  form = [];
  cookies = [];
  authorization = text "Bearer x";
  user_agent = [];
  remote_addr = text "a";
  payload = [];
  file = none;
  user = none;
}
