-- ===== src/Server/Tests.antt =====
-- Start-up at a server with two listeners, a file of users and a file of rules.
use iotd.Prelude.{
  ℕ, suc, ◌≡◌, refl, Bytes, false, Option, none, some, List, [], ◌∷◌, HashMap, bytes_eq,
  if◌then◌else◌, ◌==◌,
}
use iotd.Protocol.Packet.{ascii}
use iotd.Config.{Config, default_config, default_auth, default_acl, AuthBackend, AclBackend}
use iotd.Auth.Types.{Credentials}
use iotd.Auth.Acl.{AclRule, Permission}
use iotd.Auth.AclFile.{print_rules}
use iotd.Auth.PasswordFile.{print_users}
use iotd.Storage.Sqlite.Rows.{Chrono}
use iotd.Server.Listen.{Net, bind}
use iotd.Server.Bound.{Ends, Serves, bind-Serves}
use iotd.Server.Start.{Server}
use iotd.Server.Serve.{Session, add_client, cancel_all_sessions, started, Reach}
use iotd.Server.Args.{Setting, Invocation, parse_args, print_settings, parse_args-print_settings}

-- The network counts the sockets; a socket is its number and its address.
abbrev net : Net ℕ (ℕ × Bytes) Bytes
net = record {
  build_tls_acceptor = λ conf. some conf.cert_file;
  bind = λ addr n. (some (n, addr), suc n);
  local_addr = λ socket. some socket.1;
}

abbrev two_listeners : Config
two_listeners = record default_config {
  listen = ascii "tls://a:8883" ∷ ascii "b:1883" ∷ [];
  tls = some (record { cert_file = ascii "cert"; key_file = ascii "key" });
}

bind-Serves_example :
    Ends (bind net two_listeners 0).0 (Serves net two_listeners.tls two_listeners.listen)
bind-Serves_example = bind-Serves net two_listeners 0

abbrev rules : List AclRule
rules =
    record { client_id = ascii "a"; permission = Permission.publish; topic_filter = ascii "door" }
    ∷ []

abbrev users : HashMap Bytes Bytes
users = (ascii "alice", ascii "secret") ∷ []

abbrev alice : Credentials
alice = record {
  username = some (ascii "alice");
  password = some (ascii "secret");
  client_id = ascii "a";
}

abbrev guarded : Config
guarded = record default_config {
  auth = record default_auth { backend = AuthBackend.password_file };
  acl = record default_acl { backend = AclBackend.acl_file };
}

abbrev files : Bytes → Option Bytes
files path = if path == ascii "passwd" then some (print_users users) else some (print_rules rules)

abbrev clock : Chrono
clock = record { to_rfc3339 = λ t. t ∷ []; parse_from_rfc3339 = λ s. none }

abbrev settings : List Setting
settings =
    Setting.listen_on (ascii "a:1")
    ∷ Setting.config_from (ascii "f")
    ∷ Setting.listen_on (ascii "b:2")
    ∷ []

last_counts :
    parse_args (print_settings settings) none none
    ≡ Invocation.start (some (ascii "b:2")) (some (ascii "f"))
last_counts = parse_args-print_settings settings none none

abbrev handle : Session
handle = record { id = ascii "s"; command_tx = 3 }

added : (add_client handle started).stopped ≡ false
unfolding add_client
added = refl

-- A session is added, and then the server stops.
stopped_with_one : Reach (cancel_all_sessions (add_client handle started))
stopped_with_one = Reach.stops (Reach.arrives handle Reach.start refl tt) added
