-- ===== src/Session/Command.antt =====
-- The command of a session, internal/session/command.go: its environment and its exit code.
use ngntun.Base.Int.{ℤ, pos}
use ngntun.Base.{ℕ, ◌+◌, Bool, true, false, List, [], ◌∷◌, ◌++◌, if◌then◌else◌, Bytes, codes}
use ngntun.Netip.{Addr, AddrPort, NetipText, Prefix, is_valid, is_valid_port}
use ngntun.Text.Decimal.{itoa}

-- The error of `exec.Cmd.Wait`: none, an exit with its code, the end by a signal, or another error.
pub data WaitStatus : Type 0 where
  clean : WaitStatus
  exited : (code : ℤ) → WaitStatus
  signaled : (signal : ℕ) → WaitStatus
  wait_failed : WaitStatus

pub record CommandResult : Type 0 where
  pub exit_code : ℤ
  pub failed : Bool

-- `commandResultOf`
unfoldable pub command_result_of : WaitStatus → CommandResult
command_result_of clean = record { exit_code = pos 0; failed = false }
command_result_of (exited code) = record { exit_code = code; failed = false }
command_result_of (signaled signal) = record { exit_code = pos (128 + signal); failed = false }
command_result_of wait_failed = record { exit_code = pos 1; failed = true }

-- the fields of `Config` and of `Result` that the environment reads
pub record EnvConfig : Type 0 where
  pub tun_name : Bytes
  pub tun_mtu : ℕ
  pub tun_addr : Prefix
  pub tun_peer : Addr
  pub peer_number : Bytes
  pub remote : AddrPort

-- the `add` of `commandEnv`
env_add : Bytes → Bytes → List Bytes → List Bytes
env_add k [] env = env
env_add k (c ∷ v) env = env ++ (k ++ (b'=' ∷ c ∷ v)) ∷ []

module _ (text : NetipText) where
  -- `commandEnv`
  unfoldable pub command_env : EnvConfig → List Bytes
  unfolding env_add itoa
  command_env cfg =
      let env0 =
        (codes "NGNTUN_TUN=" ++ cfg.tun_name)
        ∷ (codes "NGNTUN_TUN_MTU=" ++ itoa cfg.tun_mtu)
        ∷ [] in
      let env1 =
        if is_valid cfg.tun_addr.addr
        then env_add (codes "NGNTUN_TUN_IP") (text.addr_string cfg.tun_addr.addr)
            (env_add (codes "NGNTUN_TUN_ADDR") (text.prefix_string cfg.tun_addr) env0)
        else env0 in
      let env2 =
        if is_valid cfg.tun_peer
        then env_add (codes "NGNTUN_TUN_PEER") (text.addr_string cfg.tun_peer) env1
        else env1 in
      let env3 = env_add (codes "NGNTUN_PEER_NUMBER") cfg.peer_number env2 in
      if is_valid_port cfg.remote
      then env_add (codes "NGNTUN_REMOTE_MEDIA") (text.addr_port_string cfg.remote) env3
      else env3
