-- ===== src/Engine/Tunnel.antt =====
-- The descriptor of the TUN device: `SetTunFd` of engine_controller.go, and `OpenTun` of
-- platform_android.go, which the core calls.
use fastflow_client.Base.{◌≡◌, refl, ◌∙◌, ap, List, [], ◌∷◌, arith, if◌then◌else◌}
use fastflow_client.Base.Calls.{Result, err}
use fastflow_client.Base.Int.{ℤ, pos, negsuc, leb_ℤ, wrap32}
use fastflow_client.Base.Text.{Text, codes}
use fastflow_client.Engine.{
  Engine, Core, start, stop, set_tun_fd, new_engine, force_cleanup, start_body, parse_config,
  create_box, start_box, start_poller, settle, set_error, set_status,
}
use fastflow_client.Engine.Operations.{Op, start_op, stop_op, fd_op, perform, perform_all}
use fastflow_client.Netif.{open_tun}

-- The descriptor that was set last.
abbrev pub last_fd : List Op → ℤ → ℤ
last_fd [] fd = fd
last_fd (fd_op new ∷ ops) fd = last_fd ops (wrap32 new)
last_fd (_ ∷ ops) fd = last_fd ops fd

-- `withPlatformInterface` of platform_other.go: builds for other systems register no platform.
unfoldable pub with_platform_interface : {Context : Type 0} → Context → Engine → Context
with_platform_interface ctx e = ctx

-- `OpenTun`, over the engine that `androidPlatform` refers to.
unfoldable pub open_tun_of {ℓ} : {A : Type ℓ} → (ℤ → Result A) → Engine → Result A
unfolding open_tun
open_tun_of tun_new e = open_tun tun_new e.tun_fd

module _ (core : Core) where
  start-tun_fd : (config : Text) (e : Engine) → (start core config e).0.tun_fd ≡ e.tun_fd
  unfolding start start_body parse_config create_box start_box start_poller settle set_error
      set_status force_cleanup
  start-tun_fd config e = ground arith

  stop-tun_fd : (e : Engine) → (stop core e).0.tun_fd ≡ e.tun_fd
  unfolding stop force_cleanup set_status
  stop-tun_fd e = ground arith

  perform-tun_fd :
      (op : Op) (ops : List Op) (e : Engine)
      → last_fd ops (perform core op e).tun_fd ≡ last_fd (op ∷ ops) e.tun_fd
  unfolding set_tun_fd
  perform-tun_fd (start_op config) ops e = ap (last_fd ops) (start-tun_fd config e)
  perform-tun_fd stop_op ops e = ap (last_fd ops) (stop-tun_fd e)
  perform-tun_fd (fd_op fd) ops e = refl

  perform_all-tun_fd :
      (ops : List Op) (e : Engine) → (perform_all core ops e).tun_fd ≡ last_fd ops e.tun_fd
  unfolding perform_all
  perform_all-tun_fd [] e = refl
  perform_all-tun_fd (op ∷ ops) e =
      perform_all-tun_fd ops (perform core op e) ∙ perform-tun_fd op ops e

  -- After any operations on a new engine, the core that opens the TUN device is given the
  -- descriptor that was set last, as a 32-bit number, whatever was started and stopped since; where
  -- none was set, or the last one is negative, it gets an error instead.
  pub open_tun_of-perform_all {ℓ} :
      {A : Type ℓ} (ops : List Op) (tun_new : ℤ → Result A)
      → open_tun_of tun_new (perform_all core ops new_engine) ≡ (
          if leb_ℤ (pos 0) (last_fd ops (negsuc 0))
          then tun_new (last_fd ops (negsuc 0))
          else err (codes "invalid argument"))
  unfolding open_tun_of open_tun
  open_tun_of-perform_all ops tun_new =
      rw (perform_all-tun_fd ops new_engine) (unfold new_engine in refl)
