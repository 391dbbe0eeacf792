-- ===== src/Llm/Exchange.antt =====
-- pkg/llm: when `Complete` of a vendor returns a response.
use Prim.Native.String.{◌++◌ as str_append}
use mathlib.Core.Path.{subst}
use bunshin_go.Common.{String, Option, none, some, [], false, ◌≡◌, ◌↔◌, refl, ap, sym, ◌∙◌, arith}
use bunshin_go.Core.Errors.{Error, wrapf, Result, ok, err}
use bunshin_go.Llm.Messages.{Request, Response}
use bunshin_go.Llm.Http.{
  Transport, Vendor, HttpRequest, HttpResponse, status_error, checked, sent, posted, decoded,
}
use bunshin_go.Llm.Openai
use bunshin_go.Llm.Azure.{AzureProvider}
use bunshin_go.Llm.Azure
use bunshin_go.Llm.Anthropic
use bunshin_go.Llm.Google

-- The exchange goes well: the request is encoded and built, the client gets an answer with status
-- 200, and its body, which is closed, decodes.
pub record Exchanged {Wire Reply Event Body W : Type 0} (t : Transport Wire Reply Event Body W)
    (wire : Wire) (request : String → HttpRequest) (response : Reply → Response) (w w' : W)
    (out : Response) : Type 0 where
  pub body : String
  pub answer : HttpResponse Body
  pub between : W
  pub reply : Reply
  pub encoded : t.marshal wire ≡ ok body
  pub built : t.new_request (request body).method (request body).url ≡ none
  pub answered : t.send (request body) w ≡ (between, ok answer)
  pub status : answer.status_code ≡ 200
  pub closed : w' ≡ t.close answer.body between
  pub read : t.decode answer.body ≡ ok reply
  pub result : out ≡ response reply

ok-inj : {A B : Type 0} {a b : A} {x y : B} → ◌≡◌ {A = B × Result A} (x, ok a) (y, ok b) → a ≡ b
ok-inj h = cc

module _ {Wire Reply Event Body W : Type 0} (t : Transport Wire Reply Event Body W)
    (vendor : String) (wire : Wire) (request : String → HttpRequest)
    (response : Reply → Response) where
  status_ok : (r : HttpResponse Body) → r.status_code ≡ 200 → status_error t vendor r ≡ none
  unfolding status_error
  status_ok r h = ground arith

  status_only : (r : HttpResponse Body) → status_error t vendor r ≡ none → r.status_code ≡ 200
  unfolding status_error
  status_only r h = ground arith

  checked_ok :
      (doing : String) (p : W × Result (HttpResponse Body)) (w : W) (a : HttpResponse Body)
      → checked t vendor doing p ≡ (w, ok a)
      → (p ≡ (w, ok a)) × (a.status_code ≡ 200)
  unfolding checked
  checked_ok doing (v, err e) w a h = absurd cc
  checked_ok doing (v, ok b) w a h = go (status_error t vendor b) refl h
    where
      go :
          (o : Option Error)
          → status_error t vendor b ≡ o
          → (elim o as (λ _. W × Result (HttpResponse Body)) [
            | some e ↦ (t.close b.body v, err e)
            | none ↦ (v, ok b)
          ])
            ≡ (w, ok a)
          → (◌≡◌ {A = W × Result (HttpResponse Body)} (v, ok b) (w, ok a)) × (a.status_code ≡ 200)
      go (some e) s k = absurd cc
      go none s k =
          (k, subst (λ (c : HttpResponse Body). c.status_code ≡ 200) (ok-inj k) (status_only b s))

  sent_ok :
      (building doing : String) (r : HttpRequest) (w w' : W) (a : HttpResponse Body)
      → sent t vendor building doing r w ≡ (w', ok a)
      → (t.new_request r.method r.url ≡ none) × ((t.send r w ≡ (w', ok a)) × (a.status_code ≡ 200))
  unfolding sent
  sent_ok building doing r w w' a h = go (t.new_request r.method r.url) h
    where
      go :
          (o : Option Error)
          → (elim o as (λ _. W × Result (HttpResponse Body)) [
            | some e ↦ (w, err (wrapf (str_append vendor building) [] e))
            | none ↦ checked t vendor doing (t.send r w)
          ])
            ≡ (w', ok a)
          → (o ≡ none) × ((t.send r w ≡ (w', ok a)) × (a.status_code ≡ 200))
      go (some e) k = absurd cc
      go none k = (refl, checked_ok doing (t.send r w) w' a k)

  posted_ok :
      (w w' : W) (a : HttpResponse Body)
      → posted t vendor wire request w ≡ (w', ok a)
      → (body : String) × ((t.marshal wire ≡ ok body)
          × ((t.new_request (request body).method (request body).url ≡ none)
              × ((t.send (request body) w ≡ (w', ok a)) × (a.status_code ≡ 200))))
  unfolding posted
  posted_ok w w' a h = go (t.marshal wire) h
    where
      go :
          (m : Result String)
          → (elim m as (λ _. W × Result (HttpResponse Body)) [
            | err e ↦ (w, err (wrapf (str_append vendor ": marshal request: %w") [] e))
            | ok body ↦ sent t vendor ": build request: %w" ": http: %w" (request body) w
          ])
            ≡ (w', ok a)
          → (body : String) × ((m ≡ ok body)
              × ((t.new_request (request body).method (request body).url ≡ none)
                  × ((t.send (request body) w ≡ (w', ok a)) × (a.status_code ≡ 200))))
      go (err e) k = absurd cc
      go (ok body) k = (body, (refl, sent_ok _ _ (request body) w w' a k))

  decoded_ok :
      (p : W × Result (HttpResponse Body)) (w : W) (out : Response)
      → decoded t vendor response p ≡ (w, ok out)
      → (a : HttpResponse Body) × ((between : W) × ((reply : Reply) × ((p ≡ (between, ok a))
              × ((w ≡ t.close a.body between)
                  × ((t.decode a.body ≡ ok reply) × (out ≡ response reply))))))
  unfolding decoded
  decoded_ok (v, err e) w out h = absurd cc
  decoded_ok (v, ok a) w out h = go (t.decode a.body) refl h
    where
      go :
          (d : Result Reply)
          → t.decode a.body ≡ d
          → ◌≡◌ {A = W × Result Response}
              (
                t.close a.body v,
                elim d as (λ _. Result Response) [
                  | err e ↦ err (wrapf (str_append vendor ": decode response: %w") [] e)
                  | ok reply ↦ ok (response reply)
                ],
              )
              (w, ok out)
          → (b : HttpResponse Body) × ((between : W) × ((reply : Reply) × ((◌≡◌
                    {A = W × Result (HttpResponse Body)}
                    (v, ok a)
                    (between, ok b))
                  × ((w ≡ t.close b.body between)
                      × ((t.decode b.body ≡ ok reply) × (out ≡ response reply))))))
      go (err e) d k = absurd cc
      go (ok reply) d k = (a, (v, (reply, (refl, (sym (ap (λ q. q.0) k), (d, sym (ok-inj k)))))))

  exchange_sound :
      (w w' : W) (out : Response)
      → decoded t vendor response (posted t vendor wire request w) ≡ (w', ok out)
      → Exchanged t wire request response w w' out
  exchange_sound w w' out h =
      let (a, (between, (reply, (p, (closed, (read, result)))))) =
        decoded_ok (posted t vendor wire request w) w' out h in
      let (body, (encoded, (built, (answered, status)))) = posted_ok w between a p in
      record {
        body = body;
        answer = a;
        between = between;
        reply = reply;
        encoded = encoded;
        built = built;
        answered = answered;
        status = status;
        closed = closed;
        read = read;
        result = result;
      }

  checked_eq :
      (doing : String) (w : W) (a : HttpResponse Body)
      → a.status_code ≡ 200
      → checked t vendor doing (w, ok a) ≡ (w, ok a)
  unfolding checked
  checked_eq doing w a h = rw (status_ok a h, checked) refl

  posted_eq :
      (w w' : W) (out : Response) (x : Exchanged t wire request response w w' out)
      → posted t vendor wire request w ≡ (x.between, ok x.answer)
  unfolding posted sent
  posted_eq w w' out x =
      rw (x.encoded, posted)
        (rw (x.built, sent)
          (ap (checked t vendor ": http: %w") x.answered
            ∙ checked_eq ": http: %w" x.between x.answer x.status))

  decoded_eq :
      (w w' : W) (out : Response) (x : Exchanged t wire request response w w' out)
      → decoded t vendor response (x.between, ok x.answer) ≡ (w', ok out)
  unfolding decoded
  decoded_eq w w' out x = rw (x.read, x.closed, x.result) refl

  -- The end of `Complete` after the exchange of `posted` returns a response exactly when the exchange
  -- goes well.
  pub exchange_iff :
      (w w' : W) (out : Response)
      → (decoded t vendor response (posted t vendor wire request w) ≡ (w', ok out))
        ↔ Exchanged t wire request response w w' out
  exchange_iff w w' out = (
    exchange_sound w w' out,
    λ x. ap (decoded t vendor response) (posted_eq w w' out x) ∙ decoded_eq w w' out x,
  )

-- `Complete` of each vendor returns a response exactly when the request, with the messages of the
-- caller, is encoded and built, the client has an answer with status 200, and the body of the answer
-- decodes; the response is then the one made of what it decodes to, one request has been sent, and
-- the body has been closed.
pub complete_iff :
    {Body W : Type 0}
    (t : Transport Openai.WireRequest Openai.WireResponse Openai.WireStreamChunk Body W)
    (u : Transport Anthropic.WireRequest Anthropic.WireResponse Anthropic.WireStreamEvent Body W)
    (v : Transport Google.WireRequest Google.WireResponse Google.WireResponse Body W) (p : Vendor)
    (q : AzureProvider) (req : Request) (w w' : W) (out : Response)
    → ((Openai.complete t p req w ≡ (w', ok out))
        ↔ Exchanged t
            (Openai.build_wire_request p req false)
            (Openai.completion_request p)
            Openai.response_of
            w
            w'
            out)
      × (((Azure.complete t q req w ≡ (w', ok out))
            ↔ Exchanged t
                (Azure.build_wire_request q req false)
                (Azure.completion_request q)
                (Azure.response_of q)
                w
                w'
                out)
          × (((Anthropic.complete u p req w ≡ (w', ok out))
                ↔ Exchanged u
                    (Anthropic.build_wire_request p req false)
                    (Anthropic.completion_request p)
                    Anthropic.response_of
                    w
                    w'
                    out)
              × ((Google.complete v p req w ≡ (w', ok out))
                  ↔ Exchanged v
                      (Google.build_wire_request p req)
                      (Google.generate_request p)
                      (Google.response_of p)
                      w
                      w'
                      out)))
unfolding Openai.complete Azure.complete Anthropic.complete Google.complete
complete_iff t u v p q req w w' out = (
  exchange_iff t "openai" _ _ _ w w' out,
  (
    exchange_iff t "azure-openai" _ _ _ w w' out,
    (exchange_iff u "anthropic" _ _ _ w w' out, exchange_iff v "google" _ _ _ w w' out),
  ),
)
