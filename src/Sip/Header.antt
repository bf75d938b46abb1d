-- ===== src/Sip/Header.antt =====
-- `Header` and `Headers` of internal/sip/message.go. A list of headers is a value here: the code's
-- `Set` and `Del` write over the array that they read, never ahead of the place that is read.
pub mod Laws
use ngntun.Base.{
  ℕ, Bool, true, false, not, ◌||◌, List, [], ◌∷◌, ◌++◌, Option, none, some, if◌then◌else◌, Bytes,
  codes, bytes_eq,
}
use ngntun.Text.Case.{to_lower}
use ngntun.Text.Space.{trim_space}

pub record Header : Type 0 where
  pub name : Bytes
  pub value : Bytes

abbrev pub Headers : Type 0
Headers = List Header

abbrev compact_forms : List (Bytes × Bytes)
compact_forms =
    (codes "v", codes "via")
    ∷ (codes "f", codes "from")
    ∷ (codes "t", codes "to")
    ∷ (codes "i", codes "call-id")
    ∷ (codes "m", codes "contact")
    ∷ (codes "l", codes "content-length")
    ∷ (codes "c", codes "content-type")
    ∷ (codes "k", codes "supported")
    ∷ (codes "s", codes "subject")
    ∷ (codes "e", codes "content-encoding")
    ∷ (codes "r", codes "refer-to")
    ∷ []

-- the full name of a compact form, and any other name as it is
expand : List (Bytes × Bytes) → Bytes → Bytes
unfolding bytes_eq
expand [] n = n
expand ((short, full) ∷ forms) n = if bytes_eq short n then full else expand forms n

unfoldable pub canon : Bytes → Bytes
unfolding expand to_lower trim_space
canon name = expand compact_forms (to_lower (trim_space name))

-- `canon(hd.Name) == canon(name)`
unfoldable pub same_name : Bytes → Header → Bool
unfolding bytes_eq canon
same_name name hd = bytes_eq (canon hd.name) (canon name)

-- The value of the first header of the name, or the empty text.
unfoldable pub get : Headers → Bytes → Bytes
unfolding same_name
get [] name = []
get (hd ∷ h) name = if same_name name hd then hd.value else get h name

unfoldable pub values : Headers → Bytes → List Bytes
unfolding same_name
values [] name = []
values (hd ∷ h) name = let out = values h name in if same_name name hd then hd.value ∷ out else out

unfoldable pub add : Headers → Bytes → Bytes → Headers
add h name value = h ++ record { name = name; value = value } ∷ []

-- the loop of `Set` with the addition behind it
unfoldable pub set_loop : Bool → Headers → Bytes → Bytes → Headers
unfolding same_name
set_loop replaced [] name value =
    if not replaced then record { name = name; value = value } ∷ [] else []
set_loop replaced (hd ∷ h) name value =
    let out = set_loop (same_name name hd || replaced) h name value in
    if not (same_name name hd)
    then hd ∷ out
    else if not replaced
    then record { name = name; value = value } ∷ out
    else out

unfoldable pub set : Headers → Bytes → Bytes → Headers
unfolding set_loop
set h name value = set_loop false h name value

unfoldable pub del : Headers → Bytes → Headers
unfolding same_name
del [] name = []
del (hd ∷ h) name = let out = del h name in if not (same_name name hd) then hd ∷ out else out
