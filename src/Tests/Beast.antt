-- ===== src/Tests/Beast.antt =====
-- An instance of the HTTP interface: three verbs, and responses as records.
use priority_http_server.Prelude.{
  ℕ, ◌≡◌, ◌↔◌, refl, Bool, true, false, ◌||◌, [], ◌∷◌, Option, none, some, ◌==◌, arith,
  if◌then◌else◌, length, Mem,
}
use mathlib.Core.List.{eq-or-mem_of_mem-cons, not-mem-nil}
use mathlib.Core.Logic.Or
use mathlib.Core.Bool.{Bool-set}
use priority_http_server.Prelude.Text.{Text, codes, text_eq, text_eq_iff}
use priority_http_server.Numbers.{decimal}
use priority_http_server.Http.{Http, Field, same_field, is_content_length}

pub data Verb : Type 0 where
  get_verb head_verb post_verb : Verb

abbrev pub verb_eq : Verb → Verb → Bool
verb_eq get_verb get_verb = true
verb_eq head_verb head_verb = true
verb_eq post_verb post_verb = true
verb_eq _ _ = false

abbrev pub verb_name : Verb → Text
verb_name get_verb = codes "GET"
verb_name head_verb = codes "HEAD"
verb_name post_verb = codes "POST"

pub verb_eq_iff : (a b : Verb) → (verb_eq a b ≡ true) ↔ (a ≡ b)
verb_eq_iff get_verb get_verb = ((λ e. refl), (λ e. refl))
verb_eq_iff get_verb head_verb = ((λ e. cc), (λ e. cc))
verb_eq_iff get_verb post_verb = ((λ e. cc), (λ e. cc))
verb_eq_iff head_verb get_verb = ((λ e. cc), (λ e. cc))
verb_eq_iff head_verb head_verb = ((λ e. refl), (λ e. refl))
verb_eq_iff head_verb post_verb = ((λ e. cc), (λ e. cc))
verb_eq_iff post_verb get_verb = ((λ e. cc), (λ e. cc))
verb_eq_iff post_verb head_verb = ((λ e. cc), (λ e. cc))
verb_eq_iff post_verb post_verb = ((λ e. refl), (λ e. refl))

names_apart : (a b : Verb) → text_eq (verb_name a) (verb_name b) ≡ verb_eq a b
unfolding text_eq
names_apart get_verb get_verb = refl
names_apart get_verb head_verb = refl
names_apart get_verb post_verb = refl
names_apart head_verb get_verb = refl
names_apart head_verb head_verb = refl
names_apart head_verb post_verb = refl
names_apart post_verb get_verb = refl
names_apart post_verb head_verb = refl
names_apart post_verb post_verb = refl

pub verb_name_injective : (a b : Verb) → verb_name a ≡ verb_name b → a ≡ b
verb_name_injective a b e =
    (verb_eq_iff a b).0 (rw (← names_apart a b) ((text_eq_iff (verb_name a) (verb_name b)).1 e))

abbrev pub has_space : Text → Bool
has_space [] = false
has_space (c ∷ s) = (c == 32) || has_space s

no_space : (s : Text) (x : ℕ) → has_space s ≡ false → Mem x s → (x == 32) ≡ false
no_space [] x h m = absurd (not-mem-nil m)
no_space (c ∷ s) x h m =
    Or.elim (Bool-set _ _) (eq-or-mem_of_mem-cons m) (λ e. ground (arith, e))
      (λ t. no_space s x (ground arith) t)

has_space_lem : (s : Text) → has_space s ≡ false → ¬ Mem 32 s
has_space_lem s h m = ground (arith, no_space s 32 h m)

pub verb_name_no_space : (a : Verb) → ¬ Mem 32 (verb_name a)
verb_name_no_space get_verb = has_space_lem (codes "GET") refl
verb_name_no_space head_verb = has_space_lem (codes "HEAD") refl
verb_name_no_space post_verb = has_space_lem (codes "POST") refl

pub record Response : Type 0 where
  pub status : ℕ
  pub body : Text
  pub fields : Field → Option Text

abbrev pub set : Field → Text → Response → Response
set f v r = record r { fields = λ g. if same_field g f then some v else r.fields g }

abbrev pub prepare_payload : Response → Response
prepare_payload r = record r {
  fields = λ g. if is_content_length g then some (decimal (length r.body)) else r.fields g;
}

abbrev pub beast : Http
beast = record {
  Verb = Verb;
  get = get_verb;
  head = head_verb;
  post = post_verb;
  verb_eq = verb_eq;
  verb_name = verb_name;
  Response = Response;
  fresh = record { status = 200; body = []; fields = λ f. none };
  result = λ s r. record r { status = s };
  body = λ b r. record r { body = b };
  set = set;
  prepare_payload = prepare_payload;
  status_of = λ r. r.status;
  body_of = λ r. r.body;
  field_of = λ f r. r.fields f;
  verb_eq_iff = verb_eq_iff;
  verb_name-get = refl;
  verb_name-head = refl;
  verb_name-post = refl;
  verb_name_injective = verb_name_injective;
  verb_name_no_space = verb_name_no_space;
  body-fresh = refl;
  field-fresh = λ f. refl;
  status-result = λ s r. refl;
  body-result = λ s r. refl;
  field-result = λ f s r. refl;
  status-body = λ b r. refl;
  body-body = λ b r. refl;
  field-body = λ f b r. refl;
  status-set = λ f v r. refl;
  body-set = λ f v r. refl;
  field-set = λ f g v r. refl;
  status-prepare_payload = λ r. refl;
  body-prepare_payload = λ r. refl;
  field-prepare_payload = λ f r. refl;
}
