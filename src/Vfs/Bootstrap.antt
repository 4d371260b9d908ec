-- ===== src/Vfs/Bootstrap.antt =====
-- `bootstrap` and `New` of internal/vfs/vfs.go: the tree that a new file system starts with, as the
-- list of the calls of `addDir` and `addFile` in their order.
use honeypot_go.Base.{
  ℕ, ◌+◌, true, ◌||◌, List, [], ◌∷◌, ◌++◌, if◌then◌else◌, Bytes, codes, same, decimal,
}
use honeypot_go.Vfs.Tree.{Node}
use honeypot_go.Vfs.State.{FileSystem, recount_usage}
use honeypot_go.Vfs.Seed.{add_dir, add_file, seeded}

-- A call of `addDir` (path, mode, owner, group) or of `addFile` (the same and the content).
pub data Seed : Type 0 where
  dir : Bytes → Bytes → Bytes → Bytes → Seed
  file : Bytes → Bytes → Bytes → Bytes → Bytes → Seed

abbrev pub home_of : Bytes → Bytes
home_of u = if same u (codes "www-data") then codes "/var/www" else codes "/home/" ++ u

abbrev pub passwd_line : ℕ → Bytes → Bytes
passwd_line uid u =
    u
    ++ (codes ":x:"
        ++ (decimal uid
            ++ (codes ":"
                ++ (decimal uid
                    ++ (codes ":" ++ (u ++ (codes ":" ++ (home_of u ++ codes ":/bin/bash\n"))))))))

-- The loop that numbers the users from 1000.
unfoldable pub passwd_lines : ℕ → List Bytes → Bytes
unfolding same decimal
passwd_lines uid [] = []
passwd_lines uid (u ∷ us) =
    if same u (codes "root")
    then passwd_lines uid us
    else passwd_line uid u ++ passwd_lines (uid + 1) us

abbrev pub passwd_text : List Bytes → Bytes
passwd_text users =
    codes "root:x:0:0:root:/root:/bin/bash\n"
    ++ (passwd_lines 1000 users
        ++ codes "sshd:x:65534:65534:sshd:/var/run/sshd:/usr/sbin/nologin\n")

abbrev shadow : Bytes
shadow = codes "root:$6$rounds=656000$ZyHdQ8m4tZ8mK0n$:19800:0:99999:7:::\n"

-- /etc and the log of logins
abbrev pub seeds_etc : Bytes → Bytes → List Seed
seeds_etc passwd host =
    file (codes "/etc/passwd") (codes "-rw-r--r--") (codes "root") (codes "root") passwd
    ∷ file (codes "/etc/shadow") (codes "-rw-------") (codes "root") (codes "shadow") shadow
    ∷ file (codes "/etc/hostname") (codes "-rw-r--r--") (codes "root") (codes "root")
        (host ++ (codes "\n"))
    ∷ file (codes "/etc/hosts") (codes "-rw-r--r--") (codes "root") (codes "root")
        (codes "127.0.0.1\tlocalhost\n127.0.1.1\t" ++ (host ++ (codes "\n")))
    ∷ file (codes "/etc/os-release") (codes "-rw-r--r--") (codes "root") (codes "root") (
        codes
          "NAME=\"Ubuntu\"\nVERSION=\"22.04.3 LTS (Jammy Jellyfish)\"\nID=ubuntu\nVERSION_ID=\"22.04\"\n")
    ∷ file (codes "/etc/motd") (codes "-rw-r--r--") (codes "root") (codes "root")
        (codes "Welcome to Ubuntu 22.04.3 LTS (GNU/Linux 5.15.0-91-generic x86_64)\n")
    ∷ file (codes "/var/log/auth.log") (codes "-rw-r-----") (codes "syslog") (codes "adm") (
        codes "Aug 18 02:11:03 "
        ++ (host
            ++ (codes " sshd[2312]: Accepted publickey for ubuntu from 10.0.2.15\nAug 19 07:42:11 "
                ++ (host
                    ++ (codes
                        " sshd[2319]: Failed password for invalid user admin from 203.0.113.4 port 53321 ssh2\n")))))
    ∷ []

-- The system directories and /proc
abbrev pub seeds_system : List Seed
seeds_system =
    dir (codes "/bin") (codes "drwxr-xr-x") (codes "root") (codes "root")
    ∷ dir (codes "/sbin") (codes "drwxr-xr-x") (codes "root") (codes "root")
    ∷ dir (codes "/usr") (codes "drwxr-xr-x") (codes "root") (codes "root")
    ∷ dir (codes "/usr/bin") (codes "drwxr-xr-x") (codes "root") (codes "root")
    ∷ dir (codes "/usr/sbin") (codes "drwxr-xr-x") (codes "root") (codes "root")
    ∷ dir (codes "/usr/local") (codes "drwxr-xr-x") (codes "root") (codes "root")
    ∷ dir (codes "/usr/local/bin") (codes "drwxr-xr-x") (codes "root") (codes "root")
    ∷ dir (codes "/lib") (codes "drwxr-xr-x") (codes "root") (codes "root")
    ∷ dir (codes "/boot") (codes "drwxr-xr-x") (codes "root") (codes "root")
    ∷ dir (codes "/mnt") (codes "drwxr-xr-x") (codes "root") (codes "root")
    ∷ dir (codes "/media") (codes "drwxr-xr-x") (codes "root") (codes "root")
    ∷ dir (codes "/var") (codes "drwxr-xr-x") (codes "root") (codes "root")
    ∷ dir (codes "/var/backups") (codes "drwxr-xr-x") (codes "root") (codes "root")
    ∷ dir (codes "/var/run") (codes "drwxr-xr-x") (codes "root") (codes "root")
    ∷ dir (codes "/proc") (codes "dr-xr-xr-x") (codes "root") (codes "root")
    ∷ dir (codes "/proc/net") (codes "dr-xr-xr-x") (codes "root") (codes "root")
    ∷ dir (codes "/proc/self") (codes "dr-xr-xr-x") (codes "root") (codes "root")
    ∷ file (codes "/proc/version") (codes "-r--r--r--") (codes "root") (codes "root") []
    ∷ file (codes "/proc/cpuinfo") (codes "-r--r--r--") (codes "root") (codes "root") []
    ∷ file (codes "/proc/meminfo") (codes "-r--r--r--") (codes "root") (codes "root") []
    ∷ file (codes "/proc/uptime") (codes "-r--r--r--") (codes "root") (codes "root") []
    ∷ file (codes "/proc/loadavg") (codes "-r--r--r--") (codes "root") (codes "root") []
    ∷ file (codes "/proc/stat") (codes "-r--r--r--") (codes "root") (codes "root") []
    ∷ file (codes "/proc/self/status") (codes "-r--r--r--") (codes "root") (codes "root") []
    ∷ file (codes "/proc/self/cmdline") (codes "-r--r--r--") (codes "root") (codes "root") []
    ∷ file (codes "/proc/net/tcp") (codes "-r--r--r--") (codes "root") (codes "root") []
    ∷ file (codes "/proc/net/udp") (codes "-r--r--r--") (codes "root") (codes "root") []
    ∷ file (codes "/proc/net/arp") (codes "-r--r--r--") (codes "root") (codes "root") []
    ∷ []

-- More of /etc, and cron
abbrev pub seeds_config : List Seed
seeds_config =
    dir (codes "/etc/ssh") (codes "drwxr-xr-x") (codes "root") (codes "root")
    ∷ file (codes "/etc/ssh/sshd_config") (codes "-rw-r--r--") (codes "root") (codes "root") (
        codes
          "Port 22\nPermitRootLogin yes\nPasswordAuthentication yes\nPubkeyAuthentication yes\nChallengeResponseAuthentication no\nUsePAM yes\nX11Forwarding yes\n")
    ∷ dir (codes "/etc/nginx") (codes "drwxr-xr-x") (codes "root") (codes "root")
    ∷ dir (codes "/etc/nginx/sites-enabled") (codes "drwxr-xr-x") (codes "root") (codes "root")
    ∷ file (codes "/etc/nginx/nginx.conf") (codes "-rw-r--r--") (codes "root") (codes "root") (
        codes
          "user www-data;\nworker_processes auto;\nevents { worker_connections 768; }\nhttp {\n\tsendfile on;\n\tinclude /etc/nginx/sites-enabled/*;\n}\n")
    ∷ file (codes "/etc/nginx/sites-enabled/default") (codes "-rw-r--r--") (codes "root")
        (codes "root")
        (codes "server {\n\tlisten 80 default_server;\n\troot /var/www;\n\tindex index.html;\n}\n")
    ∷ dir (codes "/etc/ufw") (codes "drwxr-xr-x") (codes "root") (codes "root")
    ∷ file (codes "/etc/ufw/ufw.conf") (codes "-rw-r--r--") (codes "root") (codes "root")
        (codes "ENABLED=yes\nDEFAULT_INPUT_POLICY=\"DROP\"\nDEFAULT_OUTPUT_POLICY=\"ACCEPT\"\n")
    ∷ file (codes "/etc/resolv.conf") (codes "-rw-r--r--") (codes "root") (codes "root")
        (codes "nameserver 8.8.8.8\nnameserver 8.8.4.4\n")
    ∷ file (codes "/etc/issue") (codes "-rw-r--r--") (codes "root") (codes "root")
        (codes "Ubuntu 22.04.3 LTS \\n \\l\n")
    ∷ file (codes "/etc/hosts.allow") (codes "-rw-r--r--") (codes "root") (codes "root")
        (codes "# /etc/hosts.allow\nsshd: 10.0.0.0/8\n")
    ∷ file (codes "/etc/hosts.deny") (codes "-rw-r--r--") (codes "root") (codes "root")
        (codes "# /etc/hosts.deny\n")
    ∷ file (codes "/etc/group") (codes "-rw-r--r--") (codes "root") (codes "root") (
        codes
          "root:x:0:\ndaemon:x:1:\nbin:x:2:\nsys:x:3:\nadm:x:4:syslog\nwww-data:x:33:\nssh:x:110:\nnogroup:x:65534:\n")
    ∷ file (codes "/etc/crontab") (codes "-rw-r--r--") (codes "root") (codes "root") (
        codes
          "SHELL=/bin/sh\nPATH=/usr/local/sbin:/usr/local/bin:/sbin:/bin:/usr/sbin:/usr/bin\n17 *\t* * *\troot\tcd / && run-parts --report /etc/cron.hourly\n25 6\t* * *\troot\ttest -x /usr/sbin/anacron || run-parts --report /etc/cron.daily\n")
    ∷ dir (codes "/var/spool/cron") (codes "drwxr-xr-x") (codes "root") (codes "root")
    ∷ dir (codes "/var/spool/cron/crontabs") (codes "drwx------") (codes "root") (codes "crontab")
    ∷ file (codes "/var/spool/cron/crontabs/root") (codes "-rw-------") (codes "root")
        (codes "crontab")
        (codes
          "# Edit this file to introduce tasks to be run by cron.\n*/5 * * * * /usr/local/bin/backup.sh >/dev/null 2>&1\n")
    ∷ []

-- /var/log
abbrev pub seeds_logs : Bytes → List Seed
seeds_logs host =
    dir (codes "/var/log") (codes "drwxr-xr-x") (codes "root") (codes "syslog")
    ∷ file (codes "/var/log/syslog") (codes "-rw-r-----") (codes "syslog") (codes "adm") (
        codes "Aug 19 02:03:55 "
        ++ (host
            ++ (codes " systemd[1]: Started Session 22 of user root.\nAug 19 02:11:00 "
                ++ (host ++ (codes " sshd[2312]: Server listening on 0.0.0.0 port 22.\n")))))
    ∷ file (codes "/var/log/kern.log") (codes "-rw-r-----") (codes "syslog") (codes "adm") (
        codes "Aug 18 22:41:12 "
        ++ (host ++ (codes " kernel: [ 1234.567890] eth0: link up, 1000Mbps, full-duplex\n")))
    ∷ file (codes "/var/log/dpkg.log") (codes "-rw-r-----") (codes "root") (codes "adm") (
        codes
          "2026-06-15 09:12:03 install nginx:amd64 1.18.0-6ubuntu14.4\n2026-06-15 09:12:08 status installed nginx:amd64 1.18.0-6ubuntu14.4\n")
    ∷ []

-- The home of root, and /home
abbrev pub seeds_root : List Seed
seeds_root =
    dir (codes "/root") (codes "drwx------") (codes "root") (codes "root")
    ∷ dir (codes "/root/.ssh") (codes "drwx------") (codes "root") (codes "root")
    ∷ file (codes "/root/.ssh/authorized_keys") (codes "-rw-------") (codes "root") (codes "root") (
        codes
          "ssh-ed25519 AAAAC3NzaC1lZDI1NTE5AAAAILpVN7mA6QvO0vKsQ1Yh+9nWl9sXm2OaJt2pKzVq1Q== attacker@vm\n")
    ∷ file (codes "/root/.bash_history") (codes "-rw-------") (codes "root") (codes "root")
        (codes "ls -la\ncd /var/www\napt update\nwhoami\n")
    ∷ file (codes "/root/.bashrc") (codes "-rw-r--r--") (codes "root") (codes "root") (
        codes "# ~/.bashrc\nalias ll='ls -alF'\nalias ls='ls --color=auto'\nexport HISTSIZE=2000\n")
    ∷ file (codes "/root/.profile") (codes "-rw-r--r--") (codes "root") (codes "root") (
        codes
          "# ~/.profile\nif [ -n \"$BASH_VERSION\" ]; then\n\tif [ -f \"$HOME/.bashrc\" ]; then\n\t\t. \"$HOME/.bashrc\"\n\tfi\nfi\n")
    ∷ file (codes "/root/.wget-hsts") (codes "-rw-------") (codes "root") (codes "root")
        (codes "example.com:0:0\n")
    ∷ dir (codes "/home") (codes "drwxr-xr-x") (codes "root") (codes "root")
    ∷ []

-- The home of one user
abbrev pub seeds_home : Bytes → List Seed
seeds_home u =
    dir (codes "/home/" ++ (u)) (codes "drwxr-xr-x") u u
    ∷ dir (codes "/home/" ++ (u ++ (codes "/.ssh"))) (codes "drwx------") u u
    ∷ file (codes "/home/" ++ (u ++ (codes "/.ssh/authorized_keys"))) (codes "-rw-------") u u (
        codes
          "ssh-rsa AAAAB3NzaC1yc2EAAAADAQABAAABAQC7vJ1QcXj6fN9kLw+4lWc/UbYVt0Y0pX5U7D0sJ2qWqY7fQJbT+6y7v0y+q9Xq1j0zWU0pKk== "
        ++ (u ++ (codes "@localhost\n")))
    ∷ file (codes "/home/" ++ (u ++ (codes "/.bashrc"))) (codes "-rw-r--r--") u u
        (codes "# ~/.bashrc\n")
    ∷ file (codes "/home/" ++ (u ++ (codes "/.profile"))) (codes "-rw-r--r--") u u
        (codes "# ~/.profile\n")
    ∷ file (codes "/home/" ++ (u ++ (codes "/.wget-hsts"))) (codes "-rw-------") u u []
    ∷ []

-- The loop over the users.
unfoldable pub seeds_homes : List Bytes → List Seed
unfolding same
seeds_homes [] = []
seeds_homes (u ∷ us) =
    let rest = seeds_homes us in
    if same u (codes "root") || same u (codes "www-data") then rest else seeds_home u ++ rest

-- The home of ubuntu
abbrev pub seeds_ubuntu : List Seed
seeds_ubuntu =
    dir (codes "/home/ubuntu") (codes "drwxr-xr-x") (codes "ubuntu") (codes "ubuntu")
    ∷ dir (codes "/home/ubuntu/.ssh") (codes "drwx------") (codes "ubuntu") (codes "ubuntu")
    ∷ file (codes "/home/ubuntu/.ssh/authorized_keys") (codes "-rw-------") (codes "ubuntu")
        (codes "ubuntu")
        (codes
          "ssh-ed25519 AAAAC3NzaC1lZDI1NTE5AAAAIK5yEoPz2mz0lOqrGb5cMZ4h/8dQ5vDqV5fM+Xf6VbA== admin@laptop\n")
    ∷ file (codes "/home/ubuntu/.profile") (codes "-rw-r--r--") (codes "ubuntu") (codes "ubuntu")
        (codes "# ~/.profile\n")
    ∷ file (codes "/home/ubuntu/README.txt") (codes "-rw-r--r--") (codes "ubuntu") (codes "ubuntu")
        (codes "Server migration notes:\n- Nginx config in /etc/nginx\n- MySQL on 127.0.0.1:3306\n")
    ∷ []

-- The applications and the temporary directories
abbrev pub seeds_apps : List Seed
seeds_apps =
    dir (codes "/var/www") (codes "drwxr-xr-x") (codes "root") (codes "root")
    ∷ dir (codes "/var/www/html") (codes "drwxr-xr-x") (codes "www-data") (codes "www-data")
    ∷ file (codes "/var/www/html/index.html") (codes "-rw-r--r--") (codes "www-data")
        (codes "www-data")
        (codes
          "<html><body><h1>Welcome to Ubuntu!</h1><p>nginx web server is running.</p></body></html>\n")
    ∷ dir (codes "/opt") (codes "drwxr-xr-x") (codes "root") (codes "root")
    ∷ file (codes "/opt/README.md") (codes "-rw-r--r--") (codes "root") (codes "root")
        (codes "Deployment notes\n=================\n- apps: /srv/*.sh\n- logs: /var/log\n")
    ∷ dir (codes "/srv") (codes "drwxr-xr-x") (codes "root") (codes "root")
    ∷ file (codes "/srv/backup.sh") (codes "-rwxr-xr-x") (codes "root") (codes "root") (
        codes
          "#!/bin/bash\n# Nightly backup to NAS\ntar czf /var/backups/www-$(date +%F).tar.gz /var/www\n")
    ∷ dir (codes "/tmp") (codes "drwxrwxrwt") (codes "root") (codes "root")
    ∷ dir (codes "/var/tmp") (codes "drwxrwxrwt") (codes "root") (codes "root")
    ∷ dir (codes "/dev/shm") (codes "drwxrwxrwt") (codes "root") (codes "root")
    ∷ []

unfoldable pub seeds : Bytes → List Bytes → List Seed
unfolding passwd_lines seeds_homes
seeds host users =
    seeds_etc (passwd_text users) host
    ++ (seeds_system
        ++ (seeds_config
            ++ (seeds_logs host
                ++ (seeds_root ++ (seeds_homes users ++ (seeds_ubuntu ++ seeds_apps))))))

abbrev pub plant_one : ℕ → Seed → Node → Node
plant_one now (dir path perm owner group) root = add_dir now path perm owner group root
plant_one now (file path perm owner group content) root =
    add_file now path perm owner group content root

unfoldable pub plant : ℕ → List Seed → Node → Node
unfolding add_dir add_file
plant now [] root = root
plant now (s ∷ ss) root = plant now ss (plant_one now s root)

-- The root before `bootstrap`; its time is the zero time.
abbrev pub bare_root : Node
bare_root = seeded true (codes "/") (codes "drwxr-xr-x") (codes "root") (codes "root") 0 []

-- `New`
unfoldable pub new_file_system : ℕ → Bytes → List Bytes → FileSystem
unfolding seeds plant recount_usage
new_file_system now host users = recount_usage (record {
  root = plant now (seeds host users) bare_root;
  hostname = host;
  total_bytes = 0;
  total_nodes = 0;
})
