-- ===== src/MountProps/Receive.antt =====
-- `receive_options` against what `zfs receive` makes of options.
use zark.Base.{
  ◌≡◌, refl, sym, inl, inr, Option, none, some, List, [], ◌∷◌, ◌++◌, Bool-cases, Text, codes,
  text_eq, text_eq→eq,
}
use zark.Replication.Names.{strip_prefix}
use zark.MountProps.{inherited, receive_options, effective_mountpoint, MountProps}

-- The value that the options give a property, as `zfs receive -o NAME=VALUE` reads them.
abbrev pub option_value : Text → List Text → Option Text
option_value name [] = none
option_value name (o ∷ opts) = elim (strip_prefix (codes "-o " ++ (name ++ b'=' ∷ [])) o) [
  | some v ↦ some v
  | none ↦ option_value name opts
]

-- The mountpoint of a dataset received with the options: theirs, or the inherited one.
abbrev pub received_mountpoint : List Text → Text → Text → Text
received_mountpoint opts parent_effective leaf = elim (option_value (codes "mountpoint") opts) [
  | some v ↦ v
  | none ↦ inherited parent_effective leaf
]

-- A dataset received with the options that are chosen has the canmount that was asked for, and the
-- mountpoint that `effective_mountpoint` predicts: the options say nothing of it only where it is
-- inherited anyway.
pub receive_options-effective :
    (props : MountProps) (parent_effective leaf : Text)
    → (option_value (codes "canmount") (receive_options props parent_effective leaf)
        ≡ some props.canmount)
      × (received_mountpoint (receive_options props parent_effective leaf) parent_effective leaf
          ≡ effective_mountpoint props parent_effective leaf)
unfolding receive_options effective_mountpoint strip_prefix
receive_options-effective props p leaf = elim (Bool-cases (text_eq props.mountpoint [])) [
  | inl e ↦ rw e ((refl, refl))
  | inr e ↦ elim (Bool-cases (text_eq props.mountpoint (inherited p leaf))) [
    | inl t ↦ rw (e, t) ((refl, sym (text_eq→eq props.mountpoint (inherited p leaf) t)))
    | inr t ↦ rw (e, t) ((refl, refl))
  ]
]
