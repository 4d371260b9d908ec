-- ===== src/Detect/Rules.antt =====
-- internal/detect/rules.go: the rules with their conditions, `severityForScore`, `hostOnly` and
-- `isPrivateIP`.
use honeypot_go.Base.{
  ℕ, ◌-◌, ◌*◌, Bool, true, false, ◌&&◌, ◌||◌, not, Option, none, some, List, [], ◌∷◌, if◌then◌else◌,
  ltb, leb, Bytes, codes, contains, has_prefix, any_of, same,
}
use honeypot_go.Event.Defs.{
  Event, Kind, auth_attempt, command_executed, download_attempt, connect_attempt, file_written,
  event_str, event_bool,
}

-- What the program asks of a parsed `net.IP`.
pub record Ip : Type 0 where
  pub is_loopback : Bool
  pub is_link_local_unicast : Bool
  pub is_private : Bool

-- The parts of Go's library that the rules call and that rest on tables or grammars of their own:
-- strings.ToLower, net.ParseIP, the host of a successful net.SplitHostPort, and the `Host` of a
-- successful url.Parse.
pub record Net : Type 0 where
  pub to_lower : Bytes → Bytes
  pub parse_ip : Bytes → Option Ip
  pub split_host_port : Bytes → Option Bytes
  pub url_host : Bytes → Option Bytes

-- `connState`; `fired` lists the keys that the map holds as true. Times are nanoseconds.
pub record ConnState : Type 0 where
  pub conn_id : Bytes
  pub source_ip : Bytes
  pub score : ℕ
  pub attempts : ℕ
  pub fails : ℕ
  pub logged_in : Bool
  pub login_at : ℕ
  pub fired : List Bytes

pub record Rule : Type 0 where
  pub name : Bytes
  pub severity : Bytes
  pub points : ℕ
  pub matches : Net → ℕ → Event → ConnState → Bool

abbrev pub is_kind : Kind → Kind → Bool
is_kind Kind.connection_opened Kind.connection_opened = true
is_kind Kind.connection_closed Kind.connection_closed = true
is_kind Kind.auth_attempt Kind.auth_attempt = true
is_kind Kind.session_opened Kind.session_opened = true
is_kind Kind.session_closed Kind.session_closed = true
is_kind Kind.command_executed Kind.command_executed = true
is_kind Kind.download_attempt Kind.download_attempt = true
is_kind Kind.connect_attempt Kind.connect_attempt = true
is_kind Kind.file_written Kind.file_written = true
is_kind Kind.alert Kind.alert = true
is_kind _ _ = false

unfoldable pub host_only : Net → Bytes → Bytes
host_only net h = elim (net.split_host_port h) [ none ↦ h | some host ↦ host ]

unfoldable pub is_private_ip : Net → Bytes → Bool
is_private_ip net host = elim (net.parse_ip host) [
  | none ↦ false
  | some ip ↦ ip.is_loopback || ip.is_link_local_unicast || ip.is_private
]

unfoldable pub match_brute_force : Net → ℕ → Event → ConnState → Bool
unfolding event_bool
match_brute_force net now ev st =
    is_kind ev.kind auth_attempt && (not (event_bool ev (codes "success")) && leb 50 st.fails)

unfoldable pub match_weak_login : Net → ℕ → Event → ConnState → Bool
unfolding event_bool
match_weak_login net now ev st = is_kind ev.kind auth_attempt && event_bool ev (codes "success")

abbrev recon_words : List Bytes
recon_words = codes "whoami" ∷ codes "uname" ∷ codes "hostname" ∷ codes "ifconfig" ∷ []

abbrev id_words : List Bytes
id_words = codes " id" ∷ codes ";id" ∷ codes "&&id" ∷ codes "||id" ∷ codes "&id" ∷ codes "|id" ∷ []

unfoldable pub match_recon : Net → ℕ → Event → ConnState → Bool
unfolding event_str contains has_prefix
match_recon net now ev st =
    let cmd = net.to_lower (event_str ev (codes "command")) in
    is_kind ev.kind command_executed
    && (not (not st.logged_in || ltb (3 * 1000000000) (now - st.login_at))
        && (any_of (contains cmd) recon_words
            || (has_prefix cmd (codes "id") || any_of (contains cmd) id_words)))

abbrev script_extensions : List Bytes
script_extensions =
    codes ".sh"
    ∷ codes ".py"
    ∷ codes ".exe"
    ∷ codes ".bin"
    ∷ codes ".elf"
    ∷ codes ".pl"
    ∷ codes ".so"
    ∷ []

-- The URL names its host by an address that is not a loopback one.
abbrev pub remote_address : Net → Option Bytes → Bool
remote_address net none = false
remote_address net (some host) =
    not (same host [])
    && elim (net.parse_ip (host_only net host)) [ none ↦ false | some ip ↦ not ip.is_loopback ]

unfoldable pub match_download : Net → ℕ → Event → ConnState → Bool
unfolding event_str contains same host_only
match_download net now ev st =
    is_kind ev.kind download_attempt
    && (any_of (contains (net.to_lower (event_str ev (codes "url")))) script_extensions
        || remote_address net (net.url_host (event_str ev (codes "url"))))

abbrev pub nc_like : Bytes → Bool
nc_like low =
    contains low (codes "nc ") || contains low (codes "ncat") || contains low (codes "netcat")

unfoldable pub match_reverse_shell : Net → ℕ → Event → ConnState → Bool
unfolding event_str contains
match_reverse_shell net now ev st =
    let low = net.to_lower (event_str ev (codes "command")) in
    is_kind ev.kind command_executed
    && (contains low (codes "mkfifo")
        || ((nc_like low && contains low (codes "-l"))
            || ((nc_like low && contains low (codes "-e"))
                || (contains low (codes "bash -i")
                    || (contains low (codes "sh -i")
                        || (contains low (codes "socat")
                            || (contains low (codes "/dev/tcp/")
                                || (contains low (codes "/dev/udp/")
                                    || ((contains low (codes "python")
                                          && contains low (codes "socket"))
                                        || ((contains low (codes "perl")
                                              && contains low (codes "socket"))
                                            || (contains low (codes "powershell -nop")
                                                || contains low (codes "-enc "))))))))))))

abbrev persistence_paths : List Bytes
persistence_paths =
    codes "authorized_keys"
    ∷ codes "crontab"
    ∷ codes "rc.local"
    ∷ codes "systemd"
    ∷ codes "init.d"
    ∷ []

unfoldable pub match_persistence : Net → ℕ → Event → ConnState → Bool
unfolding event_str contains
match_persistence net now ev st =
    is_kind ev.kind file_written
    && any_of (contains (net.to_lower (event_str ev (codes "path")))) persistence_paths

abbrev sensitive_paths : List Bytes
sensitive_paths =
    codes "/etc/shadow"
    ∷ codes "/etc/sha"
    ∷ codes "/etc/passwd"
    ∷ codes "/etc/pass"
    ∷ codes "/etc/master.passwd"
    ∷ codes "/etc/group"
    ∷ codes "/etc/sudoers"
    ∷ codes "/etc/hosts"
    ∷ codes "getent passwd"
    ∷ codes "getent shadow"
    ∷ []

unfoldable pub match_sensitive_read : Net → ℕ → Event → ConnState → Bool
unfolding event_str contains
match_sensitive_read net now ev st =
    is_kind ev.kind command_executed
    && any_of (contains (net.to_lower (event_str ev (codes "command")))) sensitive_paths

unfoldable pub match_lateral : Net → ℕ → Event → ConnState → Bool
unfolding event_str is_private_ip host_only
match_lateral net now ev st =
    is_kind ev.kind connect_attempt
    && is_private_ip net (host_only net (event_str ev (codes "target")))

abbrev pub rule : Bytes → Bytes → ℕ → (Net → ℕ → Event → ConnState → Bool) → Rule
rule name severity points matches = record {
  name = name;
  severity = severity;
  points = points;
  matches = matches;
}

abbrev pub rules : List Rule
rules =
    rule (codes "brute_force_burst") (codes "high") 30 match_brute_force
    ∷ rule (codes "weak_login_success") (codes "medium") 20 match_weak_login
    ∷ rule (codes "post_login_recon") (codes "high") 30 match_recon
    ∷ rule (codes "suspicious_download") (codes "high") 35 match_download
    ∷ rule (codes "reverse_shell_attempt") (codes "critical") 50 match_reverse_shell
    ∷ rule (codes "persistence_attempt") (codes "critical") 45 match_persistence
    ∷ rule (codes "sensitive_file_read") (codes "low") 10 match_sensitive_read
    ∷ rule (codes "lateral_movement") (codes "high") 30 match_lateral
    ∷ []

unfoldable pub severity_for_score : ℕ → Bytes
severity_for_score score =
    if leb 80 score
    then codes "critical"
    else if leb 50 score
    then codes "high"
    else if leb 25 score
    then codes "medium"
    else codes "low"
