-- ===== src/Http.antt =====
-- net/http, io and net/url, as the clients of internal/max and internal/telegram use them. What a
-- server answers is a parameter.
use maxbridge.Prelude.{
  ℕ, ◌+◌, ◌/◌, ◌%◌, ◌⊎◌, inl, inr, Bool, ◌&&◌, ◌||◌, Option, none, some, List, [], ◌∷◌, ◌++◌, leb,
  ◌==◌, if◌then◌else◌, length, take, ◌≡◌, refl,
}
use maxbridge.Text.{Text, utf8, join}

-- What an io.Reader gives: its bytes, and the error it ends in where that is not io.EOF.
pub record Reader : Type 0 where
  pub bytes : Text
  pub broken : Option Text

-- io.LimitReader; at the limit, an error that is still to come is not seen.
abbrev pub limited : ℕ → Reader → Reader
limited n r = record {
  bytes = take n r.bytes;
  broken = if leb n (length r.bytes) then none else r.broken;
}

abbrev all_read : Option Text → Text → Text ⊎ Text
all_read (some e) bytes = inl e
all_read none bytes = inr bytes

-- io.ReadAll, with the error's text on the left.
abbrev pub read_all : Reader → Text ⊎ Text
read_all r = all_read r.broken r.bytes

pub record HttpRequest : Type 0 where
  pub method : Text
  pub url : Text
  pub headers : List (Text × Text)
  pub body : Text

pub record HttpResponse : Type 0 where
  pub status_code : ℕ
  pub body : Reader

-- The error of http.NewRequestWithContext, where it refuses a URL, and Client.Do. Timeouts and
-- contexts show in the errors, which are their texts.
pub record Http (W : Type 0) : Type 0 where
  pub url_error : Text → Option Text
  pub send_request : HttpRequest → W → (Text ⊎ HttpResponse) × W

module _ {W : Type 0} (http : Http W) where
  abbrev sent : Option Text → HttpRequest → W → (Text ⊎ HttpResponse) × W
  sent (some e) req w = (inl e, w)
  sent none req w = http.send_request req w

  -- NewRequestWithContext and Do.
  unfoldable pub exchange : HttpRequest → W → (Text ⊎ HttpResponse) × W
  exchange req w = sent (http.url_error req.url) req w

-- `resp.StatusCode >= 200 && resp.StatusCode < 300`
abbrev pub is_success : ℕ → Bool
is_success status = leb 200 status && leb status 299

abbrev hex_digit : ℕ → ℕ
hex_digit n = if leb n 9 then 48 + n else 55 + n

abbrev between : ℕ → ℕ → ℕ → Bool
between a b c = leb a c && leb c b

-- Letters, digits, and the characters "-", ".", "_" and "~".
abbrev is_unreserved : ℕ → Bool
is_unreserved c =
    between 97 122 c
    || between 65 90 c
    || between 48 57 c
    || c == 45
    || c == 46
    || c == 95
    || c == 126

abbrev escape_byte : ℕ → Text → Text
escape_byte c rest =
    if is_unreserved c
    then c ∷ rest
    else if c == 32
    then 43 ∷ rest
    else 37 ∷ hex_digit (c / 16) ∷ hex_digit (c % 16) ∷ rest

-- url.QueryEscape
unfoldable pub query_escape : Text → Text
query_escape [] = []
query_escape (c ∷ s) = let rest = query_escape s in escape_byte c rest

abbrev parameter : Text × Text → Text
parameter p = query_escape p.0 ++ utf8 "=" ++ query_escape p.1

parameters : List (Text × Text) → List Text
parameters [] = []
parameters (p ∷ ps) = parameter p ∷ parameters ps

-- url.Values.Encode, on parameters in the order of their keys.
unfoldable pub encode : List (Text × Text) → Text
unfolding parameters
encode ps = join (parameters ps) (utf8 "&")

escapes : query_escape (utf8 "a b/я") ≡ utf8 "a+b%2F%D1%8F"
unfolding query_escape
escapes = refl

encodes :
    encode ((utf8 "chat_id", utf8 "-5") ∷ (utf8 "user_id", utf8 "7") ∷ [])
    ≡ utf8 "chat_id=-5&user_id=7"
unfolding encode query_escape join parameters
encodes = refl
