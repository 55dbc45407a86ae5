-- ===== src/MountProps.antt =====
-- lib/mount_props.py: where a restored dataset's canmount and mountpoint come from.
pub mod Receive
mod Tests
use zark.Base.{
  ℕ, Bool, not, ◌&&◌, Option, none, some, List, [], ◌∷◌, ◌++◌, ◌==◌, if◌then◌else◌, Dict, get,
  get_or, put, Text, codes, text_eq, starts_with, mem_text, split,
}
use zark.Replication.Names.{strip_prefix}

-- `(canmount, mountpoint)`
abbrev pub Pair : Type 0
Pair = Text × Text

abbrev pub children_off : List Text
children_off = codes "usr" ∷ codes "var" ∷ []

abbrev pub children_on : List Text
children_on =
    codes "usr/local"
    ∷ codes "var/lib"
    ∷ codes "var/log"
    ∷ codes "var/mail"
    ∷ codes "var/snap"
    ∷ codes "var/spool"
    ∷ codes "var/www"
    ∷ codes "var/games"
    ∷ codes "var/lib/apt"
    ∷ codes "var/lib/dpkg"
    ∷ codes "var/lib/AccountsService"
    ∷ codes "var/lib/NetworkManager"
    ∷ codes "srv"
    ∷ []

pub record MountProps : Type 0 where
  pub canmount : Text
  pub mountpoint : Text
  pub source : Text

-- the lines of the text, split at tabs: `name mountpoint canmount ...`
unfoldable pub add_cache_line : List Text → Dict Pair → Dict Pair
add_cache_line ((c ∷ name) ∷ mountpoint ∷ canmount ∷ more) out =
    put (c ∷ name) (canmount, mountpoint) out
add_cache_line _ out = out

unfoldable pub parse_list_cache : List Text → Dict Pair → Dict Pair
parse_list_cache [] out = out
parse_list_cache (line ∷ lines) out = parse_list_cache lines (add_cache_line (split 9 line) out)

abbrev pub no_paths : List Text
no_paths = codes "none" ∷ codes "legacy" ∷ codes "-" ∷ []

unfoldable pub rpool_root_mountpoint : Dict Pair → Text × Text
rpool_root_mountpoint cache =
    let mountpoint = (get_or ([], []) (codes "rpool") cache).1 in
    if not (text_eq mountpoint []) && not (mem_text mountpoint no_paths)
    then (mountpoint, codes "cache")
    else (codes "/", codes "ubuntu")

-- a child of the boot environment's root, by its name below it
unfoldable pub child_layout : Text → Option Pair
child_layout child =
    if text_eq child (codes "zark-boot")
    then some (codes "noauto", codes "legacy")
    else if mem_text child children_off
    then some (codes "off", b'/' ∷ child)
    else if mem_text child children_on
    then some (codes "on", b'/' ∷ child)
    else none

unfoldable pub other_layout : Text → Text → Option Pair
other_layout rel be =
    if starts_with (codes "rpool/USERDATA/home_") rel
    then some (codes "on", codes "/home")
    else if starts_with (codes "rpool/USERDATA/root_") rel
    then some (codes "on", codes "/root")
    else if text_eq rel (codes "bpool/BOOT/" ++ be)
    then some (codes "on", codes "/boot")
    else none

unfoldable pub ubuntu_layout : Text → Text → Option Pair
ubuntu_layout rel be =
    let root = codes "rpool/ROOT/" ++ be in
    if text_eq rel root
    then some (codes "on", codes "/")
    else elim (strip_prefix (root ++ b'/' ∷ []) rel) [
      | some child ↦ child_layout child
      | none ↦ other_layout rel be
    ]

-- `s.rstrip(c)`
unfoldable pub rstrip : ℕ → Text → Text
rstrip c [] = []
rstrip c (d ∷ s) = elim (rstrip c s) [ [] ↦ if d == c then [] else d ∷ [] | e ∷ t ↦ d ∷ e ∷ t ]

unfoldable pub inherited : Text → Text → Text
inherited [] leaf = codes "none"
inherited (c ∷ parent_effective) leaf =
    if mem_text (c ∷ parent_effective) no_paths
    then c ∷ parent_effective
    else rstrip b'/' (c ∷ parent_effective) ++ (b'/' ∷ leaf)

-- `f"/{'/'.join(parts[1:])}" if len(parts) == 2 else ""`
unfoldable pub first_level_path : List Text → Text
first_level_path (pool ∷ name ∷ []) = b'/' ∷ name
first_level_path _ = []

unfoldable pub choose : Text → Text → Dict Pair → Dict Pair → Bool → MountProps
choose rel be zark cache empty_with_children = elim (get rel zark) [
  | some p ↦ record { canmount = p.0; mountpoint = p.1; source = codes "zark" }
  | none ↦ elim (get rel cache) [
    | some p ↦ record { canmount = p.0; mountpoint = p.1; source = codes "cache" }
    | none ↦ elim (ubuntu_layout rel be) [
      | some p ↦ record { canmount = p.0; mountpoint = p.1; source = codes "ubuntu" }
      | none ↦ record {
        canmount = if empty_with_children then codes "off" else codes "on";
        mountpoint = first_level_path (split b'/' rel);
        source = codes "inferred";
      }
    ]
  ]
]

unfoldable pub receive_options : MountProps → Text → Text → List Text
receive_options props parent_effective leaf =
    let first = codes "-o canmount=" ++ props.canmount in
    if not (text_eq props.mountpoint [])
      && not (text_eq props.mountpoint (inherited parent_effective leaf))
    then first ∷ (codes "-o mountpoint=" ++ props.mountpoint) ∷ []
    else first ∷ []

unfoldable pub effective_mountpoint : MountProps → Text → Text → Text
effective_mountpoint props parent_effective leaf =
    if text_eq props.mountpoint [] then inherited parent_effective leaf else props.mountpoint
