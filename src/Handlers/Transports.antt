-- ===== src/Handlers/Transports.antt =====
-- The gRPC and the REST handlers of the same requests, side by side.
use service_json_keys.Prelude.{
  String, ◌≡◌, refl, ap, ◌⊎◌, inl, inr, false, Bool-cases, Option, none, some, List, [], ◌∷◌, map,
  Listed,
}
use service_json_keys.Fault.{Result, ok, err, panic, Result-cases, errors_is, jwk_not_found}
use service_json_keys.Types.{Context, Jwk}
use service_json_keys.Externals.{Externals}
use service_json_keys.World.{World}
use service_json_keys.Core.Search
use service_json_keys.Core.Select
use service_json_keys.Handlers.Grpc
use service_json_keys.Handlers.Grpc.{
  Reply, ProtoJwk, reply, status, panicked, invalid_argument, not_found, internal, to_proto,
  to_protos, get_reply, list_reply,
}
use service_json_keys.Handlers.Rest
use service_json_keys.Handlers.Rest.{
  Httpf, IsHttpf, Response, json, failed, get_response, list_response,
}

-- Either every key is there, or a nil one makes the conversion panic.
protos_cases :
    (jwks : List (Option Jwk))
    → ((keys : List Jwk) × (jwks ≡ map some keys) × (to_protos jwks ≡ reply (map to_proto keys)))
      ⊎ (Listed none jwks × (to_protos jwks ≡ panicked))
unfolding to_protos
protos_cases [] = inl ([], refl, refl)
protos_cases (none ∷ jwks) = inr (inl refl, refl)
protos_cases (some jwk ∷ jwks) = elim (protos_cases jwks) [
  | inl (keys, e, converted) ↦
      inl (jwk ∷ keys, ap (λ rest. some jwk ∷ rest) e, rw (to_protos, converted) refl)
  | inr (nil, crashed) ↦ inr (inr nil, rw (to_protos, crashed) refl)
]

-- What the two transports say to a request for the keys of a usage: the same keys; an internal
-- error and the status 500; or a panic of both, or of gRPC alone, over a nil key that REST sends.
abbrev pub ListsAgree : Reply (List ProtoJwk) → Response (List (Option Jwk)) → Type 0
ListsAgree answer response =
    ((keys : List Jwk) × (answer ≡ reply (map to_proto keys))
      × (response ≡ json 200 (map some keys)))
    ⊎ ((answer ≡ status internal "internal error") × (response ≡ failed 500))
    ⊎ ((answer ≡ panicked)
        × ((response ≡ Response.panicked)
            ⊎ ((keys : List (Option Jwk)) × Listed none keys × (response ≡ json 200 keys))))

-- And to a request for one key: the same key; an identifier that is none, and the status 400; a key
-- that is not found, and 404; an internal error, and 500; or a panic, as above.
abbrev pub KeysAgree : Reply ProtoJwk → Response (Option Jwk) → Type 0
KeysAgree answer response =
    ((key : Jwk) × (answer ≡ reply (to_proto key)) × (response ≡ json 200 (some key)))
    ⊎ ((answer ≡ status invalid_argument "invalid key id") × (response ≡ failed 400))
    ⊎ ((answer ≡ status not_found "jwk not found") × (response ≡ failed 404))
    ⊎ ((answer ≡ status internal "internal error") × (response ≡ failed 500))
    ⊎ ((answer ≡ panicked) × ((response ≡ Response.panicked) ⊎ (response ≡ json 200 none)))

module _ (h : Httpf) (x : Externals) (ctx : Context) (httpf : IsHttpf h) where
  lists_agree :
      (r : Result (List (Option Jwk))) → ListsAgree (list_reply r) (list_response h x ctx r)
  lists_agree (ok jwks) = elim (protos_cases jwks) [
    | inl (keys, e, converted) ↦ inl (keys, converted, rw e refl)
    | inr (nil, crashed) ↦ inr (inr (crashed, inr (jwks, nil, refl)))
  ]
  lists_agree (err e) = inr (inl (refl, ap failed (httpf.empty e)))
  lists_agree panic = inr (inr (refl, inl refl))

  keys_agree : (r : Result (Option Jwk)) → KeysAgree (get_reply r) (get_response h x ctx r)
  keys_agree (ok (some key)) = inl (key, refl, refl)
  keys_agree (ok none) = inr (inr (inr (inr (refl, inr refl))))
  keys_agree (err e) = elim (Bool-cases (errors_is e jwk_not_found)) [
    | inl found ↦ inr (inr (inl (rw found refl, ap failed (httpf.named jwk_not_found 404 e found))))
    | inr found ↦
        inr (inr (inr (inl (rw found refl, ap failed (httpf.unnamed jwk_not_found 404 e found)))))
  ]
  keys_agree panic = inr (inr (inr (inr (refl, inl refl))))

  gets_agree :
      (id : String) (w : World)
      → KeysAgree (Grpc.jwk_get x ctx id w).0 (Rest.jwk_get h x ctx id w).0
        × ((Grpc.jwk_get x ctx id w).1 ≡ (Rest.jwk_get h x ctx id w).1)
  unfolding Grpc.jwk_get Rest.jwk_get
  gets_agree id w = elim (Result-cases (x.parse_uuid id)) [
    | inl (key_id, e) ↦
        rw (e, Grpc.jwk_get, Rest.jwk_get) (keys_agree (Select.select x ctx key_id false w).0, refl)
    | inr (inl (fault, e)) ↦
        rw (e, Grpc.jwk_get, Rest.jwk_get) (inr (inl (refl, ap failed (httpf.any 400 fault))), refl)
    | inr (inr e) ↦
        rw (e, Grpc.jwk_get, Rest.jwk_get) (inr (inr (inr (inr (refl, inl refl)))), refl)
  ]

  -- Whatever the state and the failures of the outside, the two transports say the same to the same
  -- request, for the keys of a usage and for one key: the same public keys, or corresponding
  -- errors, with no detail of an internal one; and they leave the same state. They part at a nil
  -- key alone, over which gRPC panics and which REST sends.
  pub transports_agree :
      (usage id : String) (w : World)
      → ListsAgree (Grpc.jwk_list x ctx usage w).0 (Rest.jwk_list h x ctx usage w).0
        × ((Grpc.jwk_list x ctx usage w).1 ≡ (Rest.jwk_list h x ctx usage w).1)
        × KeysAgree (Grpc.jwk_get x ctx id w).0 (Rest.jwk_get h x ctx id w).0
        × ((Grpc.jwk_get x ctx id w).1 ≡ (Rest.jwk_get h x ctx id w).1)
  unfolding Grpc.jwk_list Rest.jwk_list
  transports_agree usage id w =
      let (agree, same) = gets_agree id w in
      (lists_agree (Search.search x ctx usage false w).0, refl, agree, same)
