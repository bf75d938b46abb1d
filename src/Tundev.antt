-- ===== src/Tundev.antt =====
-- `Create` of internal/tundev: the device file is opened, and bound to a name by an ioctl. What the
-- calls return is an argument, and so is IFNAMSIZ of golang.org/x/sys/unix.
pub mod Creation
use ngntun.Base.{
  ℕ, zero, suc, ◌-◌, Bool, true, false, not, List, [], ◌∷◌, ◌++◌, if◌then◌else◌, Bytes, bytes_eq,
  leb, length, take, Result, ok, err,
}

pub data CreateError : Type 0 where
  no_name long_name not_opened busy refused : CreateError

-- the error of the ioctl
pub data Errno : Type 0 where
  none_set ebusy other : Errno

-- What the calls return.
pub record Answers : Type 0 where
  pub opens : Bool
  pub ioctl : Errno

-- `ifreq`: the name in its field, and the flags IFF_TUN and IFF_NO_PI
pub record Ifreq : Type 0 where
  pub name : Bytes
  pub tun : Bool
  pub no_pi : Bool

-- the calls, an open with its success
pub data Call : Type 0 where
  opened : (works : Bool) → Call
  tunsetiff : Ifreq → Call
  closed : Call

pub record Created : Type 0 where
  pub calls : List Call
  pub result : Result CreateError Bytes

zeros : ℕ → Bytes
zeros zero = []
zeros (suc n) = 0 ∷ zeros n

-- `copy(req.name[:], name)` on a field of zeros
unfoldable pub name_field : ℕ → Bytes → Bytes
unfolding zeros
name_field size name = take size name ++ zeros (size - length name)

-- `Create`, for the size IFNAMSIZ; the result is the name of the device
unfoldable pub create : ℕ → Answers → Bytes → Created
unfolding name_field bytes_eq
create size a name =
    if bytes_eq name []
    then record { calls = []; result = err no_name }
    else if leb size (length name)
    then record { calls = []; result = err long_name }
    else if not a.opens
    then record { calls = opened false ∷ []; result = err not_opened }
    else let req : Ifreq = record { name = name_field size name; tun = true; no_pi = true } in
      elim a.ioctl [
        | none_set ↦ record { calls = opened true ∷ tunsetiff req ∷ []; result = ok name }
        | ebusy ↦ record { calls = opened true ∷ tunsetiff req ∷ closed ∷ []; result = err busy }
        | other ↦ record { calls = opened true ∷ tunsetiff req ∷ closed ∷ []; result = err refused }
      ]
