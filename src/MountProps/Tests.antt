-- ===== src/MountProps/Tests.antt =====
-- Runs on mount properties, and their theorems at concrete inputs.
use zark.Base.{
  ◌≡◌, refl, false, some, [], ◌∷◌, any, get, get_or, put, Text, codes, text_eq, starts_with,
  mem_text, split_first, split,
}
use zark.Replication.Names.{strip_prefix}
use zark.MountProps.{
  add_cache_line, parse_list_cache, rpool_root_mountpoint, child_layout, other_layout,
  ubuntu_layout, rstrip, inherited, first_level_path, choose, receive_options, effective_mountpoint,
  MountProps,
}
use zark.MountProps.Receive.{option_value, received_mountpoint, receive_options-effective}

-- what the runs compute with
mount_open : Unit {0}
unfolding text_eq starts_with mem_text any split split_first get get_or put strip_prefix
    add_cache_line parse_list_cache rpool_root_mountpoint child_layout other_layout ubuntu_layout
    rstrip inherited first_level_path choose receive_options effective_mountpoint
mount_open = tt

abbrev be : Text
be = codes "ubuntu_1"

cache_run :
    rpool_root_mountpoint (parse_list_cache (codes "rpool\t/data\toff\ton" ∷ []) [])
    ≡ (codes "/data", codes "cache")
unfolding mount_open
cache_run = refl

-- A mountpoint of none in the cache is not trusted.
none_run :
    rpool_root_mountpoint (parse_list_cache (codes "rpool\tnone\toff\ton" ∷ []) [])
    ≡ (codes "/", codes "ubuntu")
unfolding mount_open
none_run = refl

layout_run :
    choose (codes "rpool/ROOT/ubuntu_1/var/log") be [] [] false
    ≡ record { canmount = codes "on"; mountpoint = codes "/var/log"; source = codes "ubuntu" }
unfolding mount_open
layout_run = refl

abbrev inferred : MountProps
inferred = record { canmount = codes "on"; mountpoint = codes "/data"; source = codes "inferred" }

choose_run : choose (codes "rpool/data") be [] [] false ≡ inferred
unfolding mount_open
choose_run = refl

options_run :
    receive_options inferred (codes "/srv") (codes "data")
    ≡ codes "-o canmount=on" ∷ codes "-o mountpoint=/data" ∷ []
unfolding mount_open
options_run = refl

receive_options-effective_example :
    (option_value (codes "canmount") (receive_options inferred (codes "/") (codes "data"))
      ≡ some inferred.canmount)
    × (received_mountpoint
          (receive_options inferred (codes "/") (codes "data"))
          (codes "/")
          (codes "data")
        ≡ effective_mountpoint inferred (codes "/") (codes "data"))
receive_options-effective_example = receive_options-effective inferred (codes "/") (codes "data")
