-- ===== src/Web/Api/Calls.antt =====
-- web/src/api.ts: what each call of the API asks for, and what it makes of the response.
use mailpeek.Prelude.{ℕ, Option, get_or, List, [], ◌∷◌, ◌++◌, if◌then◌else◌, Text, codes, is_empty}
use mailpeek.Web.Api.{
  Response, Page, Result, returned, api_error, bad_json, base, request, message_url,
}

pub data Method : Type 0 where
  get_method delete_method : Method

pub record Call : Type 0 where
  pub method : Method
  pub url : Text

abbrev pub set_some : (name value : Text) → List (Text × Text)
set_some name value = if is_empty value then [] else (name, value) ∷ []

-- The parameters of `listMessages`; `show` writes a number, and `form` is `URLSearchParams.toString`.
module _ (encode : Text → Text) (show : ℕ → Text) (form : List (Text × Text) → Text) where
  abbrev pub list_params :
      (query : Text) → (limit : ℕ) → (cursor : Option Text) → List (Text × Text)
  list_params query limit cursor =
      (codes "limit", show limit)
      ∷ (set_some (codes "q") query ++ set_some (codes "cursor") (get_or cursor []))

  unfoldable pub list_messages : (query : Text) → (limit : ℕ) → (cursor : Option Text) → Call
  list_messages query limit cursor = record {
    method = get_method;
    url = base ++ (codes "/messages?" ++ form (list_params query limit cursor));
  }

  abbrev pub count_messages : (query : Text) → Call
  count_messages query = record {
    method = get_method;
    url =
        base
        ++ (codes "/messages/count"
            ++ (if is_empty query then [] else codes "?q=" ++ encode query));
  }

  abbrev pub get_message : (id : Text) → Call
  get_message id = record { method = get_method; url = message_url encode id }

  abbrev pub get_info : Call
  get_info = record { method = get_method; url = base ++ codes "/info" }

  abbrev pub clear_messages : Call
  clear_messages = record { method = delete_method; url = base ++ codes "/messages" }

  -- What a call that returns nothing makes of the result of its request.
  abbrev pub forget : {A : Type 0} → Result A → Result (Unit {0})
  forget (returned a) = returned tt
  forget (api_error status message) = api_error status message
  forget bad_json = bad_json

  unfoldable pub cleared : {A : Type 0} → Response A → Page → Result (Unit {0}) × Page
  cleared res s = let (result, page) = request encode res s in (forget result, page)

abbrev pub events_url : Text
events_url = base ++ codes "/events"
