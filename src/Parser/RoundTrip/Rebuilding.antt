-- ===== src/Parser/RoundTrip/Rebuilding.antt =====
-- A text map of src/parser.rs, rebuilt by inserting its bindings in order.
use melvin.Prelude.{◌≡◌, refl, sym, ap, ◌∙◌, true, Bytes, before, before_asymm}
use melvin.Parser.TextMap.{Entry, TextMap, empty, bind, insert}
use melvin.Parser.TextMap.Laws.{IsAfter}
use melvin.Parser.Printable.{IsName, IsPrintable}

-- Insertion of all bindings of the second map, in their order.
abbrev pub inserts : TextMap → TextMap → TextMap
inserts ret empty = ret
inserts ret (bind k v m) = inserts (insert k v ret) m

abbrev append : TextMap → TextMap → TextMap
append empty m = m
append (bind k v ret) m = bind k v (append ret m)

abbrev AllBefore : TextMap → Bytes → Type 0
AllBefore empty k = Unit
AllBefore (bind j w m) k = (before j k ≡ true) × AllBefore m k

insert_last :
    (k : Bytes) (v : Entry) (ret : TextMap)
    → AllBefore ret k
    → insert k v ret ≡ append ret (bind k v empty)
unfolding insert
insert_last k v empty h = refl
insert_last k v (bind j w m) (h, hs) =
    let (e, _, e') = before_asymm j k h in rw (e, e') (ap (bind j w) (insert_last k v m hs))

abbrev Precedes : TextMap → TextMap → Type 0
Precedes ret empty = Unit
Precedes ret (bind k v m) = AllBefore ret k × Precedes ret m

AllBefore-append :
    (ret : TextMap) (k : Bytes) (v : Entry) (j : Bytes)
    → AllBefore ret j
    → before k j ≡ true
    → AllBefore (append ret (bind k v empty)) j
AllBefore-append empty k v j h e = (e, tt)
AllBefore-append (bind i w ret) k v j (h, hs) e = (h, AllBefore-append ret k v j hs e)

Precedes-append :
    (ret : TextMap) (k : Bytes) (v : Entry) (m : TextMap)
    → Precedes ret m
    → IsAfter k m
    → Precedes (append ret (bind k v empty)) m
Precedes-append ret k v empty h a = tt
Precedes-append ret k v (bind j w m) (h, hs) (a, as_) =
    (AllBefore-append ret k v j h a, Precedes-append ret k v m hs as_)

append-append : (ret m n : TextMap) → append (append ret m) n ≡ append ret (append m n)
append-append empty m n = refl
append-append (bind k v ret) m n = ap (bind k v) (append-append ret m n)

append-empty : (ret : TextMap) → append ret empty ≡ ret
append-empty empty = refl
append-empty (bind k v ret) = ap (bind k v) (append-empty ret)

IsPrintable-tail :
    (k : Bytes) (v : Entry) (m : TextMap)
    → IsPrintable (bind k v m)
    → IsName k × IsAfter k m × IsPrintable m
IsPrintable-tail k (Entry.string x) m (h, _, a, p) = (h, a, p)
IsPrintable-tail k (Entry.number x) m (h, _, a, p) = (h, a, p)
IsPrintable-tail k (Entry.list x) m (h, _, a, p) = (h, a, p)
IsPrintable-tail k (Entry.text_map x) m (h, _, a, p) = (h, a, p)

inserts-append : (m ret : TextMap) → IsPrintable m → Precedes ret m → inserts ret m ≡ append ret m
inserts-append empty ret p h = sym (append-empty ret)
inserts-append (bind k v m) ret p (h, hs) =
    let (_, a, q) = IsPrintable-tail k v m p in
    rw (insert_last k v ret h) (
      inserts-append m (append ret (bind k v empty)) q (Precedes-append ret k v m hs a)
      ∙ append-append ret (bind k v empty) m)

Precedes-empty : (m : TextMap) → Precedes empty m
Precedes-empty empty = tt
Precedes-empty (bind k v m) = (tt, Precedes-empty m)

-- A map is rebuilt by inserting its bindings in order.
pub inserts_lem : (m : TextMap) → IsPrintable m → inserts empty m ≡ m
inserts_lem m p = inserts-append m empty p (Precedes-empty m)
