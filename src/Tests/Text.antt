-- ===== src/Tests/Text.antt =====
-- A text for configurations, in place of the JSON that the source writes: numbers in unary.
use Prim.Native.Char.{Char, code}
use Prim.Native.String.{[], ◌∷◌}
use mathlib.Core.List.{List, [] as []ᴸ, ◌∷◌ as ◌∷ᴸ◌}
use mit_distro_sys.Common.{
  ℕ, suc, zero, String, ◌≡◌, refl, ap, Option, none, some, ◌>>=◌, ◌==◌, if◌then◌else◌,
}
use mit_distro_sys.ShardCfg.{ShardConfig, ℤ, pos, negsuc}
use mit_distro_sys.ShardCtrl.{ConfigText}

-- A way to write values in front of a text and to read them back.
pub record Codec (A : Type 0) : Type 0 where
  pub enc : A → String → String
  pub dec : String → Option (A × String)
  pub law : (a : A) (s : String) → dec (enc a s) ≡ some (a, s)

abbrev enc_nat : ℕ → String → String
enc_nat zero s = "." ∷ s
enc_nat (suc n) s = "1" ∷ enc_nat n s

abbrev dec_nat : String → Option (ℕ × String)
dec_nat [] = none
dec_nat (c ∷ s) =
    let rest = dec_nat s in
    if code c == 46 then some (0, s) else (rest >>= λ r. some (suc r.0, r.1))

pub nat_law : (n : ℕ) (s : String) → dec_nat (enc_nat n s) ≡ some (n, s)
nat_law zero s = refl
nat_law (suc n) s = rw (nat_law n s) refl

abbrev nat_codec : Codec ℕ
nat_codec = record { enc = enc_nat; dec = dec_nat; law = nat_law }

abbrev dec_char : String → Option (Char × String)
dec_char [] = none
dec_char (c ∷ s) = some (c, s)

abbrev char_codec : Codec Char
char_codec = record { enc = λ c s. c ∷ s; dec = dec_char; law = λ c s. refl }

module _ {A : Type 0} (a : Codec A) where
  abbrev count_all : List A → ℕ
  count_all []ᴸ = 0
  count_all (x ∷ᴸ xs) = suc (count_all xs)

  abbrev enc_all : List A → String → String
  enc_all []ᴸ s = s
  enc_all (x ∷ᴸ xs) s = a.enc x (enc_all xs s)

  abbrev dec_many : ℕ → String → Option (List A × String)
  dec_many zero s = some ([]ᴸ, s)
  dec_many (suc n) s = a.dec s >>= λ r. dec_many n r.1 >>= λ q. some (r.0 ∷ᴸ q.0, q.1)

  pub many_law : (xs : List A) (s : String) → dec_many (count_all xs) (enc_all xs s) ≡ some (xs, s)
  many_law []ᴸ s = refl
  many_law (x ∷ᴸ xs) s = rw (a.law x (enc_all xs s), many_law xs s) refl

  abbrev list_codec : Codec (List A)
  list_codec = record {
    enc = λ xs s. enc_nat (count_all xs) (enc_all xs s);
    dec = λ s. dec_nat s >>= λ r. dec_many r.0 r.1;
    law = λ xs s. rw (nat_law (count_all xs) (enc_all xs s)) (many_law xs s);
  }

abbrev pair_codec : {A B : Type 0} → Codec A → Codec B → Codec (A × B)
pair_codec a b = record {
  enc = λ p s. a.enc p.0 (b.enc p.1 s);
  dec = λ s. a.dec s >>= λ r. b.dec r.1 >>= λ q. some ((r.0, q.0), q.1);
  law = λ p s. rw (a.law p.0 (b.enc p.1 s), b.law p.1 s) refl;
}

-- Values that are written as others
abbrev as_codec :
    {A B : Type 0} → Codec A → (f : B → A) → (g : A → B) → ((b : B) → g (f b) ≡ b) → Codec B
as_codec a f g e = record {
  enc = λ b s. a.enc (f b) s;
  dec = λ s. a.dec s >>= λ r. some (g r.0, r.1);
  law = λ b s. rw (a.law (f b) s, e b) refl;
}

abbrev to_list : String → List Char
to_list [] = []ᴸ
to_list (c ∷ s) = c ∷ᴸ to_list s

abbrev of_list : List Char → String
of_list []ᴸ = []
of_list (c ∷ᴸ l) = c ∷ of_list l

pub of_list-to_list : (s : String) → of_list (to_list s) ≡ s
of_list-to_list [] = refl
of_list-to_list (c ∷ s) = ap (λ t. c ∷ t) (of_list-to_list s)

abbrev string_codec : Codec String
string_codec = as_codec (list_codec char_codec) to_list of_list of_list-to_list

abbrev of_int : ℤ → ℕ × ℕ
of_int (pos n) = (0, n)
of_int (negsuc n) = (1, n)

abbrev to_int : ℕ × ℕ → ℤ
to_int (zero, n) = pos n
to_int (suc _, n) = negsuc n

pub to_int-of_int : (a : ℤ) → to_int (of_int a) ≡ a
to_int-of_int (pos n) = refl
to_int-of_int (negsuc n) = refl

abbrev int_codec : Codec ℤ
int_codec = as_codec (pair_codec nat_codec nat_codec) of_int to_int to_int-of_int

abbrev config_codec : Codec (ℕ × (List ℤ × List (ℤ × List String)))
config_codec = pair_codec nat_codec (
    pair_codec (list_codec int_codec) (list_codec (pair_codec int_codec (list_codec string_codec))))

abbrev fields : ShardConfig → ℕ × (List ℤ × List (ℤ × List String))
fields cfg = (cfg.num, (cfg.shards, cfg.groups))

abbrev pub config_text : ConfigText
config_text = record {
  to_text = λ cfg. config_codec.enc (fields cfg) "";
  of_text = λ s.
      config_codec.dec s >>= λ r. some (record { num = r.0.0; shards = r.0.1.0; groups = r.0.1.1 });
  of_text-to_text = λ cfg. rw (config_codec.law (fields cfg) "") refl;
}
