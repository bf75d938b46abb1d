-- ===== src/Lease/Load.antt =====
-- `LoadV6` and `LoadV4` of internal/lease/lease.go. Reading a file and decoding JSON, of the packages
-- os and encoding/json, are arguments.
use ngntun.Base.{Bytes, Option, none, some, Result, ok, err}
use ngntun.Lease.Provisioning.{V6, V4}

pub data FileError : Type 0 where
  not_exist other : FileError

pub data LoadError : Type 0 where
  unreadable : FileError → LoadError
  malformed : LoadError

pub record Files : Type 0 where
  pub read_file : Bytes → Result FileError Bytes
  pub unmarshal_v6 : Bytes → Option V6
  pub unmarshal_v4 : Bytes → Option V4

-- `loadJSON`
unfoldable pub load_json : {A : Type 0} → (Bytes → Option A) → Files → Bytes → Result LoadError A
load_json unmarshal files path = elim (files.read_file path) [
  | err e ↦ err (unreadable e)
  | ok b ↦ elim (unmarshal b) [ none ↦ err malformed | some v ↦ ok v ]
]

-- `LoadV6`
unfoldable pub load_v6 : Files → Bytes → Result LoadError V6
unfolding load_json
load_v6 files path = load_json files.unmarshal_v6 files path

-- `LoadV4`
unfoldable pub load_v4 : Files → Bytes → Result LoadError V4
unfolding load_json
load_v4 files path = load_json files.unmarshal_v4 files path
