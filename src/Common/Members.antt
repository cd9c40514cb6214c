-- ===== src/Common/Members.antt =====
-- Members and sublists of lists.
use mathlib.Core.Path.{◌∙◌, refl}
use mathlib.Core.List.{List, [], ◌∷◌, ◌++◌, Memᴰ, Sublistᴰ}

pub Memᴰ_of_sublist {ℓ} : {A : Type ℓ} {a : A} {l r : List A} → Sublistᴰ l r → Memᴰ a l → Memᴰ a r
Memᴰ_of_sublist Sublistᴰ.slnil m = elim m [ ]
Memᴰ_of_sublist (Sublistᴰ.cons s) m = Memᴰ.tail (Memᴰ_of_sublist s m)
Memᴰ_of_sublist (Sublistᴰ.cons-cons e s) (Memᴰ.head f) = Memᴰ.head (f ∙ e)
Memᴰ_of_sublist (Sublistᴰ.cons-cons e s) (Memᴰ.tail m) = Memᴰ.tail (Memᴰ_of_sublist s m)

pub sublist-snoc {ℓ} :
    {A : Type ℓ} {l r : List A} (a : A) → Sublistᴰ l r → Sublistᴰ (l ++ a ∷ []) (r ++ a ∷ [])
sublist-snoc a Sublistᴰ.slnil = Sublistᴰ.cons-cons refl Sublistᴰ.slnil
sublist-snoc a (Sublistᴰ.cons s) = Sublistᴰ.cons (sublist-snoc a s)
sublist-snoc a (Sublistᴰ.cons-cons e s) = Sublistᴰ.cons-cons e (sublist-snoc a s)

pub in_middle {ℓ} :
    {A : Type ℓ} (before : List A) (e : A) (after : List A) → Memᴰ e (before ++ (e ∷ after))
in_middle [] e after = Memᴰ.head refl
in_middle (b ∷ before) e after = Memᴰ.tail (in_middle before e after)
