-- ===== src/Providers/Model.antt =====
-- providers/model.rs: the values that the cursors and the operations of Providers carry.
use git_ramus.Base.Tests.{
  ℕ, ◌≡◌, ◌↔◌, Bool, true, false, ◌&&◌, Option, none, some, arith, ◌==◌, ==_iff, refl, and_iff,
}
use mathlib.Core.Path.{subst}
use git_ramus.Base.Text.{
  Text, text_eq_refl, text_eq, text_eq_iff, option_text_eq, option_text_eq_iff,
}

pub data ProviderKind : Type 0 where
  github gitlab : ProviderKind

-- `==` of the derived `PartialEq`, here and below
unfoldable pub kind_eq : ProviderKind → ProviderKind → Bool
kind_eq github github = true
kind_eq gitlab gitlab = true
kind_eq _ _ = false

pub data ProviderVisibility : Type 0 where
  public internal private : ProviderVisibility

unfoldable pub visibility_eq : ProviderVisibility → ProviderVisibility → Bool
visibility_eq public public = true
visibility_eq internal internal = true
visibility_eq private private = true
visibility_eq _ _ = false

unfoldable pub option_visibility_eq : Option ProviderVisibility → Option ProviderVisibility → Bool
unfolding visibility_eq
option_visibility_eq none none = true
option_visibility_eq (some a) (some b) = visibility_eq a b
option_visibility_eq _ _ = false

pub data ProviderPermission : Type 0 where
  read write admin : ProviderPermission

pub data ProviderArchivedFilter : Type 0 where
  everything active archived : ProviderArchivedFilter

unfoldable pub archived_eq : ProviderArchivedFilter → ProviderArchivedFilter → Bool
archived_eq everything everything = true
archived_eq active active = true
archived_eq archived archived = true
archived_eq _ _ = false

pub data ProviderRepositorySort : Type 0 where
  by_name by_update : ProviderRepositorySort

unfoldable pub sort_eq : ProviderRepositorySort → ProviderRepositorySort → Bool
sort_eq by_name by_name = true
sort_eq by_update by_update = true
sort_eq _ _ = false

pub data ProviderRepositoryDirection : Type 0 where
  asc desc : ProviderRepositoryDirection

unfoldable pub direction_eq : ProviderRepositoryDirection → ProviderRepositoryDirection → Bool
direction_eq asc asc = true
direction_eq desc desc = true
direction_eq _ _ = false

pub record ProviderRepositoryQuery : Type 0 where
  pub search : Text
  pub visibility : Option ProviderVisibility
  pub namespace : Option Text
  pub archived : ProviderArchivedFilter
  pub sort : ProviderRepositorySort
  pub direction : ProviderRepositoryDirection
  pub page_size : ℕ

unfoldable pub query_eq : ProviderRepositoryQuery → ProviderRepositoryQuery → Bool
query_eq p q =
    text_eq p.search q.search
    && (option_visibility_eq p.visibility q.visibility
        && (option_text_eq p.namespace q.namespace
            && (archived_eq p.archived q.archived
                && (sort_eq p.sort q.sort
                    && (direction_eq p.direction q.direction && p.page_size == q.page_size)))))

-- A `DateTime<Utc>` is a number of nanoseconds.
pub record RemoteRepository : Type 0 where
  pub provider_kind : ProviderKind
  pub instance_id : Text
  pub repository_id : Text
  pub namespace : Text
  pub name : Text
  pub full_name : Text
  pub web_url : Text
  pub https_url : Text
  pub ssh_url : Text
  pub default_branch : Option Text
  pub visibility : ProviderVisibility
  pub archived : Bool
  pub fork : Bool
  pub permission : ProviderPermission
  pub updated_at : ℕ

pub data AdapterCursor : Type 0 where
  page : ℕ → AdapterCursor
  keyset : Text → AdapterCursor

pub kind_eq_iff : (a b : ProviderKind) → (kind_eq a b ≡ true) ↔ (a ≡ b)
unfolding kind_eq
kind_eq_iff a b = ground arith

option_visibility_eq_iff :
    (a b : Option ProviderVisibility) → (option_visibility_eq a b ≡ true) ↔ (a ≡ b)
unfolding option_visibility_eq
option_visibility_eq_iff a b = ground arith

archived_eq_iff : (a b : ProviderArchivedFilter) → (archived_eq a b ≡ true) ↔ (a ≡ b)
unfolding archived_eq
archived_eq_iff a b = ground arith

sort_eq_iff : (a b : ProviderRepositorySort) → (sort_eq a b ≡ true) ↔ (a ≡ b)
unfolding sort_eq
sort_eq_iff a b = ground arith

direction_eq_iff : (a b : ProviderRepositoryDirection) → (direction_eq a b ≡ true) ↔ (a ≡ b)
unfolding direction_eq
direction_eq_iff a b = ground arith

query_eq_refl : (p : ProviderRepositoryQuery) → query_eq p p ≡ true
unfolding query_eq
query_eq_refl p =
    rw (text_eq_refl, (option_visibility_eq_iff p.visibility p.visibility).1 refl)
      (rw
        (
          (option_text_eq_iff p.namespace p.namespace).1 refl,
          (archived_eq_iff p.archived p.archived).1 refl,
        )
        (rw ((sort_eq_iff p.sort p.sort).1 refl, (direction_eq_iff p.direction p.direction).1 refl)
          (ground arith)))

query_eq_sound : (p q : ProviderRepositoryQuery) → query_eq p q ≡ true → p ≡ q
unfolding query_eq
query_eq_sound p q h =
    let (a, h₁) = (and_iff _ _).0 h in
    let (b, h₂) = (and_iff _ _).0 h₁ in
    let (c, h₃) = (and_iff _ _).0 h₂ in
    let (d, h₄) = (and_iff _ _).0 h₃ in
    let (e, h₅) = (and_iff _ _).0 h₄ in
    let (f, g) = (and_iff _ _).0 h₅ in
    λ i. record {
      search = (text_eq_iff p.search q.search).0 a i;
      visibility = (option_visibility_eq_iff p.visibility q.visibility).0 b i;
      namespace = (option_text_eq_iff p.namespace q.namespace).0 c i;
      archived = (archived_eq_iff p.archived q.archived).0 d i;
      sort = (sort_eq_iff p.sort q.sort).0 e i;
      direction = (direction_eq_iff p.direction q.direction).0 f i;
      page_size = (==_iff p.page_size q.page_size).0 g i;
    }

pub query_eq_iff : (p q : ProviderRepositoryQuery) → (query_eq p q ≡ true) ↔ (p ≡ q)
query_eq_iff p q = (query_eq_sound p q, λ e. subst (λ x. query_eq p x ≡ true) e (query_eq_refl p))
