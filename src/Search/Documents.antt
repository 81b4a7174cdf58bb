-- ===== src/Search/Documents.antt =====
-- search/indexer.py: the document of a product, and what it is made of.
use yadakchi.Prelude.{
  ℕ, String, ◌&&◌, ◌||◌, Option, none, some, List, [], ◌∷◌, ◌++◌, ltb, ◌==◌, if◌then◌else◌, str_eq,
  is_some, length, sorted_set, truthy,
}
use yadakchi.Search.Models.{
  Offer, ProductPayload, ProductState, SynonymDecision, Document, SearchDb, Env,
}
use yadakchi.Search.Graph.{connected_codes}

abbrev nonempty : String → List String → List String
nonempty code rest = if str_eq code "" then rest else code ∷ rest

-- `_base_codes`, sorted.
unfoldable pub base_codes : Env → ProductPayload → List String
base_codes env payload = sorted_set (codes (payload.part_numbers ++ payload.crossref_codes))
  where
    codes : List String → List String
    codes [] = []
    codes (c ∷ cs) = nonempty (env.normalize_part_number c) (codes cs)

abbrev variant_of : String → Option String → List String
variant_of title none = []
variant_of title (some t) = if str_eq t "" || str_eq t title then [] else t ∷ []

abbrev variants_in : String → List Offer → List String
variants_in title [] = []
variants_in title (o ∷ os) = variant_of title o.title_normalized ++ variants_in title os

-- `variants`
unfoldable pub title_variants : ProductPayload → List String
title_variants payload = sorted_set (variants_in payload.title payload.offers)

abbrev optional : Option String → List String
optional none = []
optional (some a) = a ∷ []

-- `_embedding_text`
unfoldable pub embedding_text : Env → ProductPayload → String
unfolding title_variants
embedding_text env payload = env.joined (
    payload.title ∷ title_variants payload
    ++ optional (truthy payload.brand)
    ++ optional (truthy payload.part_type))

-- The tokens that `approved_synonyms` groups under a part type.
unfoldable pub synonyms_of : Env → String → List SynonymDecision → List String
synonyms_of env part_type decisions =
    if str_eq part_type "" then [] else sorted_set (tokens decisions)
  where
    tokens : List SynonymDecision → List String
    tokens [] = []
    tokens (d ∷ ds) =
        let rest = tokens ds in
        if d.active && (str_eq d.decision "approve" && str_eq d.part_type part_type)
        then nonempty (env.normalize_text d.token) rest
        else rest

abbrev pub or_empty : Option String → String
or_empty none = ""
or_empty (some a) = a

abbrev observed : Option ℕ → List ℕ
observed none = []
observed (some t) = t ∷ []

abbrev in_stock_times : List Offer → List ℕ
in_stock_times [] = []
in_stock_times (o ∷ os) =
    (if str_eq o.stock_status "in_stock" then observed o.price_observed_at else [])
    ++ in_stock_times os

abbrev latest : List ℕ → Option ℕ
latest [] = none
latest (t ∷ ts) = elim (latest ts) [ none ↦ some t | some u ↦ some (if ltb t u then u else t) ]

abbrev freshness : Env → Option ℕ → ℕ
freshness env none = 0
freshness env (some t) = env.timestamp t

abbrev best_trust : List Offer → ℕ
best_trust [] = 0
best_trust (o ∷ os) =
    let rest = best_trust os in if ltb o.trust_score rest then rest else o.trust_score

-- The stored embedding if the text and the dimension are right, or a new one.
unfoldable pub embedding_for : Env → ProductState → String → List ℕ
embedding_for env state text =
    if str_eq state.embedding_text_hash (env.sha256 text) && (length state.embedding == 384)
    then state.embedding
    else env.embed text

-- `_document`
unfoldable pub document_for : Env → SearchDb → ProductState → ProductPayload → Document
document_for env db state payload = record {
  product_uid = state.product_uid;
  title = payload.title;
  title_variants = title_variants payload;
  part_type_synonyms = synonyms_of env (or_empty payload.part_type) db.synonyms;
  part_numbers = sorted_set (connected_codes env db.crossrefs (base_codes env payload));
  vehicle_compatible = sorted_set payload.vehicles_compatible;
  vehicle_incompatible = sorted_set payload.vehicles_incompatible;
  authenticity_dominant = payload.authenticity_dominant;
  offer_count = payload.offer_count;
  has_image = is_some payload.image_url;
  embedding = embedding_for env state (embedding_text env payload);
  updated_at = env.timestamp payload.updated_at;
  price_freshness = freshness env (latest (in_stock_times payload.offers));
  best_seller_trust = best_trust payload.offers;
  payload_json = payload;
  brand = payload.brand;
  part_type = payload.part_type;
  min_price_toman = payload.min_price_toman;
}
