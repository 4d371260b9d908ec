-- ===== src/Vfs/Proc.antt =====
-- `procContent` of internal/vfs/vfs.go: the files under /proc whose content is generated.
use honeypot_go.Base.{Option, none, some, [], ◌∷◌, ◌++◌, Bytes, codes, same, if◌then◌else◌}

-- What the call reads off the clock: the line of /proc/uptime, with its floating point numbers
-- printed, and the decimal form of `bootTime.Unix()`.
pub record ProcClock : Type 0 where
  pub uptime_line : Bytes
  pub boot_seconds : Bytes

proc_version : Bytes
proc_version =
    codes
      "Linux version 5.15.0-91-generic (buildd@lcy02-amd64-046) #101-Ubuntu SMP Tue Nov 14 13:30:08 UTC 2023\n"

proc_cpuinfo : Bytes
proc_cpuinfo =
    codes
      "processor\t: 0\nvendor_id\t: GenuineIntel\nmodel name\t: Intel(R) Xeon(R) CPU E5-2680 v4 @ 2.40GHz\ncpu MHz\t\t: 2399.996\n"

proc_meminfo : Bytes
proc_meminfo =
    codes "MemTotal:       16383952 kB\nMemFree:         4123456 kB\nMemAvailable:   11472544 kB\n"

proc_loadavg : Bytes
proc_loadavg = codes "0.00 0.01 0.05 1/312 403\n"

proc_stat : Bytes → Bytes
proc_stat boot_seconds =
    codes "cpu  123456 789 65432 987654321 1234 0 5678 0 0 0\n"
    ++ (codes "cpu0 123456 789 65432 987654321 1234 0 5678 0 0 0\n"
        ++ (codes "intr 234567890 45 89 0 0 0 0 0 0 0\n"
            ++ (codes "ctxt 1234567890\nbtime "
                ++ (boot_seconds
                    ++ (codes "\nprocesses 5432\nprocs_running 1\nprocs_blocked 0\n")))))

proc_self_status : Bytes
proc_self_status =
    codes
      "Name:\tbash\nUmask:\t0022\nState:\tS (sleeping)\nTgid:\t403\nNgid:\t0\nPid:\t403\nPPid:\t402\n"
    ++ (codes "TracerPid:\t0\nUid:\t0\t0\t0\t0\nGid:\t0\t0\t0\t0\nFDSize:\t256\nGroups:\t0 \n"
        ++ (codes
            "VmPeak:\t  121200 kB\nVmSize:\t  121200 kB\nRssAnon:\t    2656 kB\nRssFile:\t    1632 kB\nThreads:\t1\n"))

proc_self_cmdline : Bytes
proc_self_cmdline = codes "-bash" ++ (0 ∷ [])

proc_net_tcp : Bytes
proc_net_tcp =
    codes
      "  sl  local_address rem_address   st tx_queue rx_queue tr tm->when retrnsmt   uid  timeout inode\n"
    ++ (codes
          "   0: 00000000:0016 00000000:0000 0A 00000000:00000000 00:00000000 00000000     0        0 27396 1 ffff880000000000 100 0 0 10 0\n"
        ++ (codes
              "   1: 00000000:0050 00000000:0000 0A 00000000:00000000 00:00000000 00000000     0        0 27402 1 ffff880000000000 100 0 0 10 0\n"
            ++ (codes
                "   2: 0100007F:0CEA 00000000:0000 0A 00000000:00000000 00:00000000 00000000     0        0 29172 1 ffff880000000000 100 0 0 10 0\n")))

proc_net_udp : Bytes
proc_net_udp =
    codes
      "  sl  local_address rem_address   st tx_queue rx_queue tr tm->when retrnsmt   uid  timeout inode\n"
    ++ (codes
        "   0: 00000000:0035 00000000:0000 07 00000000:00000000 00:00000000 00000000     0        0 26140 2 ffff880000000000 100 0 0 10 0\n")

proc_net_arp : Bytes
proc_net_arp =
    codes "IP address       HW type     Flags       HW address            Mask     Device\n"
    ++ (codes "10.0.2.2         0x1         0x2         52:54:00:12:35:02     *        eth0\n"
        ++ (codes "10.0.2.15        0x1         0x2         08:00:27:ab:cd:ef     *        eth0\n"))

unfoldable pub proc_content : ProcClock → Bytes → Option Bytes
unfolding same proc_version proc_cpuinfo proc_meminfo proc_loadavg proc_stat proc_self_status
    proc_self_cmdline proc_net_tcp proc_net_udp proc_net_arp
proc_content clock path =
    if same path (codes "/proc/version")
    then some (proc_version)
    else if same path (codes "/proc/cpuinfo")
    then some (proc_cpuinfo)
    else if same path (codes "/proc/meminfo")
    then some (proc_meminfo)
    else if same path (codes "/proc/uptime")
    then some (clock.uptime_line)
    else if same path (codes "/proc/loadavg")
    then some (proc_loadavg)
    else if same path (codes "/proc/stat")
    then some (proc_stat clock.boot_seconds)
    else if same path (codes "/proc/self/status")
    then some (proc_self_status)
    else if same path (codes "/proc/self/cmdline")
    then some (proc_self_cmdline)
    else if same path (codes "/proc/net/tcp")
    then some (proc_net_tcp)
    else if same path (codes "/proc/net/udp")
    then some (proc_net_udp)
    else if same path (codes "/proc/net/arp")
    then some (proc_net_arp)
    else none
