-- ===== src/Arpyc/Boxes/RoundTrip.antt =====
-- What arrives of an object that was sent.
use user_mode_nixos.Prelude.{◌≡◌, refl, sym, ap, inl, inr, Bool, true, Bool-cases}
use user_mode_nixos.Arpyc.Boxes.{
  Obj, Items, Entries, box, box_items, box_entries, unbox, unbox_items, unbox_fields,
}

-- The object with each list a tuple.
unfoldable mutual
  pub as_tuples : Obj → Obj
  as_tuples (Obj.atom a) = Obj.atom a
  as_tuples (Obj.tuple xs) = Obj.tuple (as_tuples_items xs)
  as_tuples (Obj.list xs) = Obj.tuple (as_tuples_items xs)
  as_tuples (Obj.dict es) = Obj.dict (as_tuples_entries es)

  pub as_tuples_items : Items → Items
  as_tuples_items Items.nil = Items.nil
  as_tuples_items (Items.cons x xs) = Items.cons (as_tuples x) (as_tuples_items xs)

  pub as_tuples_entries : Entries → Entries
  as_tuples_entries Entries.end = Entries.end
  as_tuples_entries (Entries.entry k v es) = Entries.entry k (as_tuples v) (as_tuples_entries es)

module _ (dumpable : Obj → Bool) (plain : (o : Obj) → dumpable o ≡ true → as_tuples o ≡ o) where
  mutual
    unfolding box box_items box_entries unbox unbox_items unbox_fields as_tuples as_tuples_items
        as_tuples_entries

    unbox-box : (o : Obj) → unbox (box dumpable o) ≡ as_tuples o
    unbox-box (Obj.atom a) = refl
    unbox-box (Obj.tuple xs) = elim (Bool-cases (dumpable (Obj.tuple xs))) [
      | inl whole ↦ rw whole (sym (plain (Obj.tuple xs) whole))
      | inr parts ↦ rw parts (ap Obj.tuple (unbox-box_items xs))
    ]
    unbox-box (Obj.list xs) = elim (Bool-cases (dumpable (Obj.list xs))) [
      | inl whole ↦ rw whole (sym (plain (Obj.list xs) whole))
      | inr parts ↦ rw parts (ap Obj.tuple (unbox-box_items xs))
    ]
    unbox-box (Obj.dict es) = elim (Bool-cases (dumpable (Obj.dict es))) [
      | inl whole ↦ rw whole (sym (plain (Obj.dict es) whole))
      | inr parts ↦ rw parts (ap Obj.dict (unbox-box_entries es))
    ]

    unbox-box_items : (xs : Items) → unbox_items (box_items dumpable xs) ≡ as_tuples_items xs
    unbox-box_items Items.nil = refl
    unbox-box_items (Items.cons x xs) = cc (unbox-box x, unbox-box_items xs)

    unbox-box_entries :
        (es : Entries) → unbox_fields (box_entries dumpable es) ≡ as_tuples_entries es
    unbox-box_entries Entries.end = refl
    unbox-box_entries (Entries.entry k v es) = cc (unbox-box v, unbox-box_entries es)

-- An object arrives as it was sent, with its lists turned into tuples, if what `brine` takes whole
-- holds no list.
pub box_roundtrip :
    (dumpable : Obj → Bool) (o : Obj)
    → ((p : Obj) → dumpable p ≡ true → as_tuples p ≡ p)
    → unbox (box dumpable o) ≡ as_tuples o
box_roundtrip dumpable o plain = unbox-box dumpable plain o
