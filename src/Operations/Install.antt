-- ===== src/Operations/Install.antt =====
-- internal/pbr/install.go: where the files of a platform are, and how they are put there.
use netflix_pbrd.Base.{
  ℕ, [], ◌∷◌, ◌++◌, Text, Io, ◌>>=◌, ◌>>◌, pure, fail, lift, wrap_error, Result, ok, err, text,
  codes, ◌==◌, if◌then◌else◌,
}
use netflix_pbrd.Text.Words.{text_of}
use netflix_pbrd.Operations.Machine.{Machine, load_config_file}

pub data Platform : Type 0 where
  openwrt entware systemd : Platform

pub record InstallLayout : Type 0 where
  pub platform : Platform
  pub binary : Text
  pub config : Text
  pub service : Text

abbrev pub openwrt_layout : InstallLayout
openwrt_layout = record {
  platform = openwrt;
  binary = codes "/usr/sbin/netflix-pbrd";
  config = codes "/etc/netflix-pbrd.json";
  service = codes "/etc/init.d/netflix-pbrd";
}

abbrev pub entware_layout : InstallLayout
entware_layout = record {
  platform = entware;
  binary = codes "/opt/sbin/netflix-pbrd";
  config = codes "/opt/etc/netflix-pbrd.json";
  service = codes "/opt/etc/init.d/S48netflix-pbrd";
}

abbrev pub systemd_layout : InstallLayout
systemd_layout = record {
  platform = systemd;
  binary = codes "/usr/local/sbin/netflix-pbrd";
  config = codes "/etc/netflix-pbrd.json";
  service = codes "/etc/systemd/system/netflix-pbrd.service";
}

-- The script or unit of the service.
unfoldable pub service_body : InstallLayout → Text
service_body layout = body layout.platform
  where
    body : Platform → Text
    body entware = text_of (
        codes
          "#!/bin/sh\nPIDFILE=/opt/var/run/netflix-pbrd.pid\ncase \"$1\" in\nstart) /bin/start-stop-daemon -S -b -m -p \"$PIDFILE\" -x "
        ∷ layout.binary
        ∷ codes " -- -config "
        ∷ layout.config
        ∷ codes ";;\nstop) /bin/start-stop-daemon -K -p \"$PIDFILE\" -x "
        ∷ layout.binary
        ∷ codes " || true; rm -f \"$PIDFILE\";;\nrestart) $0 stop; $0 start;;\nesac\n"
        ∷ [])
    body openwrt = text_of (
        codes
          "#!/bin/sh /etc/rc.common\nSTART=95\nUSE_PROCD=1\nstart_service() {\n  procd_open_instance\n  procd_set_param command "
        ∷ layout.binary
        ∷ codes " -config "
        ∷ layout.config
        ∷ codes
            "\n  procd_set_param respawn 3600 5 5\n  procd_set_param stdout 1\n  procd_set_param stderr 1\n  procd_close_instance\n}\n"
        ∷ [])
    body systemd = text_of (
        codes
          "[Unit]\nDescription=Netflix policy routing daemon\nAfter=network-online.target\nWants=network-online.target\n\n[Service]\nType=simple\nExecStart="
        ∷ layout.binary
        ∷ codes " -config "
        ∷ layout.config
        ∷ codes
            "\nRestart=on-failure\nRestartSec=5\nNoNewPrivileges=true\n\n[Install]\nWantedBy=multi-user.target\n"
        ∷ [])

-- Modes of files, 0755 and 0600.
abbrev pub executable_mode : ℕ
executable_mode = 493

abbrev pub private_mode : ℕ
private_mode = 384

module _ {W : Type 0} (m : Machine W) where
  open m use {
    system, runner, user, path_exists, executable, open_file, create_file, copy_bytes, close_file,
    chmod, stamp,
  }

  unfoldable pub detect_install_layout : W → InstallLayout
  detect_install_layout w =
      if path_exists (codes "/etc/openwrt_release") w
      then openwrt_layout
      else if path_exists (codes "/opt/etc/init.d") w
      then entware_layout
      else systemd_layout

  -- A descriptor that is closed behind code that uses it, whatever that code's result.
  abbrev pub closing : {A : Type 0} → ℕ → W × Result A → W × Result A
  closing fd (w, r) = ((close_file fd w).0, r)

  -- The target is closed in any case; the error of `io.Copy` goes before that of `Close`.
  abbrev pub copied : ℕ → W × Result (Unit {0}) → W × Result (Unit {0})
  copied out (w, ok u) = close_file out w
  copied out (w, err e) = ((close_file out w).0, err e)

  unfoldable pub copy_into : ℕ → Text → ℕ → Io W (Unit {0})
  copy_into source target mode = do
    out ← create_file target mode
    λ w. copied out (copy_bytes source out w)
    chmod target mode

  unfoldable pub copy_file : Text → Text → ℕ → Io W (Unit {0})
  copy_file source target mode = do
    fd ← open_file source
    λ w. closing fd (copy_into fd target mode w)

  abbrev pub stamped : Text → ℕ → W × Text → W × Result (Unit {0})
  stamped target mode (w, time) = copy_file target (target ++ (codes ".bak." ++ time)) mode w

  -- The copy of what is there, under a name with the time.
  unfoldable pub back_up : Text → ℕ → Io W (Unit {0})
  back_up target mode w = if path_exists target w then stamped target mode (stamp w) else (w, ok tt)

  unfoldable pub install_file : Text → Text → ℕ → Io W (Unit {0})
  install_file source target mode = do
    system.make_parent target
    back_up target mode
    copy_file source (target ++ codes ".new") mode
    system.rename (target ++ codes ".new") target

  unfoldable pub install_bytes : Text → Text → ℕ → Io W (Unit {0})
  install_bytes bytes target mode = do
    system.make_parent target
    back_up target mode
    system.write_file (target ++ codes ".new") bytes
    chmod (target ++ codes ".new") mode
    system.rename (target ++ codes ".new") target

  unfoldable pub write_service : InstallLayout → Io W (Unit {0})
  write_service layout = install_bytes (service_body layout) layout.service executable_mode

  abbrev pub enable_on : Platform → Text → Io W (Unit {0})
  enable_on systemd service =
      runner.run (codes "systemctl") (codes "daemon-reload" ∷ [])
      >> runner.run (codes "systemctl") (codes "enable" ∷ codes "--now" ∷ codes "netflix-pbrd" ∷ [])
  enable_on openwrt service =
      runner.run service (codes "enable" ∷ []) >> runner.run service (codes "restart" ∷ [])
  enable_on entware service = runner.run service (codes "restart" ∷ [])

  unfoldable pub enable_service : InstallLayout → Io W (Unit {0})
  enable_service layout = enable_on layout.platform layout.service

  -- The steps of `InstallSelf` for a layout. The layout itself is returned in any case.
  unfoldable pub install_as : InstallLayout → Text → Io W (Unit {0})
  install_as layout config_path = do
    if user == 0 then pure tt else fail (text (codes "install must run as root"))
    _ ← wrap_error (codes "config") (λ w. (w, load_config_file m config_path w))
    self ← lift executable
    install_file self layout.binary executable_mode
    install_file config_path layout.config private_mode
    write_service layout
    enable_service layout

  unfoldable pub install_self : Text → W → InstallLayout × (W × Result (Unit {0}))
  install_self config_path w =
      let layout = detect_install_layout w in (layout, install_as layout config_path w)
