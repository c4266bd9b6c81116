-- ===== src/Mqtt/Pieces.antt =====
-- The first pieces of a text `$aws/things/<client>/<service>/...`.
use rustot.Prelude.{◌≡◌, ap, ◌∙◌, false, List, refl, ◌∷◌, Str, ◌++◌, codes}
use rustot.Prelude.Text.{has, splitn, splitn-append}

pub things_pieces :
    (client_id service t : Str)
    → has b'/' client_id ≡ false
    → has b'/' service ≡ false
    → splitn 8 b'/' (
        codes "$aws"
        ++ b'/' ∷ (codes "things" ++ b'/' ∷ (client_id ++ b'/' ∷ (service ++ b'/' ∷ t))))
      ≡ codes "$aws" ∷ codes "things" ∷ client_id ∷ service ∷ splitn 4 b'/' t
unfolding has
things_pieces client_id service t h k =
    splitn-append 6 b'/' (codes "$aws") _ refl
    ∙ ap (λ (l : List Str). codes "$aws" ∷ l)
        (splitn-append 5 b'/' (codes "things") _ refl
          ∙ ap (λ (l : List Str). codes "things" ∷ l)
              (splitn-append 4 b'/' client_id _ h
                ∙ ap (λ (l : List Str). client_id ∷ l) (splitn-append 3 b'/' service t k)))
