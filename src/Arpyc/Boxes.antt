-- ===== src/Arpyc/Boxes.antt =====
-- `_box` and `_unbox` of pkgs/uml-runner/uml_runner/arpyc.py: labels, so that lists and
-- dictionaries can be carried. What `brine.dumpable` says of an object is a parameter.
pub mod RoundTrip
use user_mode_nixos.Prelude.{ℕ, String, Bool, true, false, if◌then◌else◌}

-- An object: an atom, such as a number or a text, by name; or one that holds others.
mutual
  pub data Obj : Type 0 where
    atom : String → Obj
    tuple : Items → Obj
    list : Items → Obj
    dict : Entries → Obj

  pub data Items : Type 0 where
    nil : Items
    cons : Obj → Items → Items

  pub data Entries : Type 0 where
    end : Entries
    entry : String → Obj → Entries → Entries

-- What is sent: `LABEL_VALUE`, `LABEL_TUPLE` or `LABEL_DICT`, with what it labels.
mutual
  pub data Package : Type 0 where
    label_value : Obj → Package
    label_tuple : Packages → Package
    label_dict : Fields → Package

  pub data Packages : Type 0 where
    none_left : Packages
    packed : Package → Packages → Packages

  pub data Fields : Type 0 where
    no_field : Fields
    field : String → Package → Fields → Fields

-- `_box`
unfoldable mutual
  pub box : (Obj → Bool) → Obj → Package
  box dumpable (Obj.atom a) = Package.label_value (Obj.atom a)
  box dumpable (Obj.tuple xs) =
      let parts = box_items dumpable xs in
      if dumpable (Obj.tuple xs)
      then Package.label_value (Obj.tuple xs)
      else Package.label_tuple parts
  box dumpable (Obj.list xs) =
      let parts = box_items dumpable xs in
      if dumpable (Obj.list xs)
      then Package.label_value (Obj.list xs)
      else Package.label_tuple parts
  box dumpable (Obj.dict es) =
      let parts = box_entries dumpable es in
      if dumpable (Obj.dict es) then Package.label_value (Obj.dict es) else Package.label_dict parts

  pub box_items : (Obj → Bool) → Items → Packages
  box_items dumpable Items.nil = Packages.none_left
  box_items dumpable (Items.cons x xs) = Packages.packed (box dumpable x) (box_items dumpable xs)

  pub box_entries : (Obj → Bool) → Entries → Fields
  box_entries dumpable Entries.end = Fields.no_field
  box_entries dumpable (Entries.entry k v es) =
      Fields.field k (box dumpable v) (box_entries dumpable es)

-- `_unbox`
unfoldable mutual
  pub unbox : Package → Obj
  unbox (Package.label_value o) = o
  unbox (Package.label_tuple ps) = Obj.tuple (unbox_items ps)
  unbox (Package.label_dict fs) = Obj.dict (unbox_fields fs)

  pub unbox_items : Packages → Items
  unbox_items Packages.none_left = Items.nil
  unbox_items (Packages.packed p ps) = Items.cons (unbox p) (unbox_items ps)

  pub unbox_fields : Fields → Entries
  unbox_fields Fields.no_field = Entries.end
  unbox_fields (Fields.field k p fs) = Entries.entry k (unbox p) (unbox_fields fs)
