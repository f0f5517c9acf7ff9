-- ===== src/Proxmox/Types/Lxc.antt =====
-- src/proxmox/types.rs: the requests that write to a container, and their queries.
use moxui.Prelude.{ℕ, List, [], ◌∷◌, Str, codes, Bool, Option, some}
use moxui.Prelude.Decimal.{decimal}
use mathlib.Core.Option
use moxui.Proxmox.Types.{flag, present}

pub record CreateLxcRequest : Type 0 where
  pub vmid : Option ℕ
  pub hostname : Str
  pub ostemplate : Str
  pub storage : Option Str
  pub memory : Option ℕ
  pub cores : Option ℕ
  pub password : Option Str
  pub rootfs : Option Str
  pub net : Option Str
  pub force : Option Bool
  pub unprivileged : Option Bool
  pub description : Option Str
  pub onboot : Option ℕ
  pub tags : Option Str
  pub ssh_public_keys : Option Str
  pub start : Option Bool

-- `CreateLxcRequest::to_query_params`.
unfoldable pub create_lxc_params : CreateLxcRequest → List (Str × Str)
create_lxc_params req = present (
    (codes "hostname", some req.hostname)
    ∷ (codes "ostemplate", some req.ostemplate)
    ∷ (codes "vmid", Option.map decimal req.vmid)
    ∷ (codes "storage", req.storage)
    ∷ (codes "memory", Option.map decimal req.memory)
    ∷ (codes "cores", Option.map decimal req.cores)
    ∷ (codes "password", req.password)
    ∷ (codes "rootfs", req.rootfs)
    ∷ (codes "net", req.net)
    ∷ (codes "force", Option.map flag req.force)
    ∷ (codes "unprivileged", Option.map flag req.unprivileged)
    ∷ (codes "description", req.description)
    ∷ (codes "onboot", Option.map decimal req.onboot)
    ∷ (codes "tags", req.tags)
    ∷ (codes "ssh-public-keys", req.ssh_public_keys)
    ∷ (codes "start", Option.map flag req.start)
    ∷ [])

pub record LxcConfig : Type 0 where
  pub hostname : Option Str
  pub memory : Option ℕ
  pub cores : Option ℕ
  pub description : Option Str
  pub onboot : Option ℕ
  pub tags : Option Str
  pub nameserver : Option Str
  pub searchdomain : Option Str
  pub rootfs : Option Str
  pub net : Option Str
  pub features : Option Str
  pub protection : Option ℕ
  pub start : Option Bool
  pub hookscript : Option Str
  pub console : Option ℕ
  pub swap : Option ℕ

-- `LxcConfig::to_query_params`.
unfoldable pub lxc_config_params : LxcConfig → List (Str × Str)
lxc_config_params config = present (
    (codes "hostname", config.hostname)
    ∷ (codes "memory", Option.map decimal config.memory)
    ∷ (codes "cores", Option.map decimal config.cores)
    ∷ (codes "description", config.description)
    ∷ (codes "onboot", Option.map decimal config.onboot)
    ∷ (codes "tags", config.tags)
    ∷ (codes "nameserver", config.nameserver)
    ∷ (codes "searchdomain", config.searchdomain)
    ∷ (codes "rootfs", config.rootfs)
    ∷ (codes "net", config.net)
    ∷ (codes "features", config.features)
    ∷ (codes "protection", Option.map decimal config.protection)
    ∷ (codes "start", Option.map flag config.start)
    ∷ (codes "hookscript", config.hookscript)
    ∷ (codes "console", Option.map decimal config.console)
    ∷ (codes "swap", Option.map decimal config.swap)
    ∷ [])

pub record LxcActionRequest : Type 0 where
  pub force : Option Bool
  pub timeout : Option ℕ

pub record DeleteLxcRequest : Type 0 where
  pub purge : Bool
  pub force : Bool
  pub skiplock : Bool
