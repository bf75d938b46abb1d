-- ===== src/Sip/Dialog/Routing.antt =====
-- Where the requests of a dialog of internal/sip/dialog.go go, and what they carry.
use ngntun.Base.{
  ℕ, List, [], ◌∷◌, ◌++◌, append-nil, append_assoc, ◌≡◌, refl, sym, ap, ◌∙◌, if◌then◌else◌, Bytes,
  codes, bytes_eq, Bool-cases, inl, inr, ok, Result-cases, ok_injective, subst,
}
use ngntun.Netip.{AddrPort, NetipText}
use ngntun.Sip.Dialog.{
  Dialog, route_headers, request_headers, new_request, next_hop, default_sip_port, contact_uri,
  angled,
}
use ngntun.Sip.Header.Laws.{alike, values-add, get-values, first_or_nil}
use ngntun.Sip.Header.{Headers, canon, add, get, values}
use ngntun.Sip.Message.{Message, request, call_id}
use ngntun.Sip.Param.{addr_port_from_uri, host_port, uri_in_angle}
use ngntun.Sip.Response.{Config, local_addr_port}
use ngntun.Text.Decimal.{itoa}

abbrev only : Bytes → Bytes → List Bytes → List Bytes
only name other vs = if alike name other then vs else []

module _ (text : NetipText) (cfg : Config) (contact_user : Bytes) where
  values-route_headers :
      (rs : List Bytes) (h : Headers) (other : Bytes)
      → values (route_headers text cfg contact_user rs h) other
        ≡ values h other ++ only (codes "Route") other rs
  unfolding route_headers
  values-route_headers [] h other = elim (Bool-cases (alike (codes "Route") other)) [
    | inl same ↦ rw same (sym (append-nil (values h other)))
    | inr differs ↦ rw differs (sym (append-nil (values h other)))
  ]
  values-route_headers (r ∷ rs) h other =
      values-route_headers rs (add h (codes "Route") r) other
      ∙ ap (λ (l : List Bytes). l ++ only (codes "Route") other rs)
          (values-add h (codes "Route") r other)
      ∙ elim (Bool-cases (alike (codes "Route") other)) [
        | inl same ↦ rw same (append_assoc (values h other) (r ∷ []) rs)
        | inr differs ↦ rw differs (append_assoc (values h other) [] [])
      ]

  -- A request inside the dialog: it names the peer's Contact, carries the whole set of routes and the
  -- identity of the dialog, and goes to the first hop.
  pub record IsRouted (d : Dialog) (method : Bytes) (n : ℕ) (m : Message) (dst : AddrPort)
      : Type 0 where
    pub target : m.request_uri ≡ d.remote_target
    pub method_is : m.method ≡ method
    pub routes : values m.headers (codes "Route") ≡ d.route_set
    pub call_id_is : call_id m ≡ d.call_id
    pub cseq_is : get m.headers (codes "CSeq") ≡ itoa n ++ (b' ' ∷ method)
    pub from_is :
        get m.headers (codes "From") ≡ angled d.local_uri ++ (codes ";tag=" ++ d.local_tag)
    pub to_is : get m.headers (codes "To") ≡ angled d.remote_uri ++ (codes ";tag=" ++ d.remote_tag)
    pub no_route :
        d.route_set ≡ [] → addr_port_from_uri text d.remote_target default_sip_port ≡ ok dst
    pub first_route :
        (r : Bytes) (rs : List Bytes)
        → d.route_set ≡ r ∷ rs
        → addr_port_from_uri text (uri_in_angle r) default_sip_port ≡ ok dst

  abbrev via_of : Dialog → Bytes → Bytes
  via_of d branch =
      codes "SIP/2.0/UDP "
      ++ (host_port text (local_addr_port cfg d.tr)
          ++ (codes ";branch=" ++ (branch ++ codes ";rport")))

  abbrev contact_of : Dialog → Bytes
  contact_of d = angled (contact_uri text cfg contact_user (local_addr_port cfg d.tr))

  values-request_headers :
      (d : Dialog) (method : Bytes) (n : ℕ) (branch other : Bytes)
      → values (request_headers text cfg contact_user d method n branch) other
        ≡ (((((((only (codes "Via") other (via_of d branch ∷ [])
                        ++ only (codes "Route") other d.route_set)
                      ++ only (codes "Max-Forwards") other (codes "70" ∷ []))
                    ++ only
                        (codes "From")
                        other
                        ((angled d.local_uri ++ (codes ";tag=" ++ d.local_tag)) ∷ []))
                  ++ only
                      (codes "To")
                      other
                      ((angled d.remote_uri ++ (codes ";tag=" ++ d.remote_tag)) ∷ []))
                ++ only (codes "Call-ID") other (d.call_id ∷ []))
              ++ only (codes "CSeq") other ((itoa n ++ (b' ' ∷ method)) ∷ []))
            ++ only (codes "Contact") other (contact_of d ∷ []))
          ++ only (codes "User-Agent") other (cfg.user_agent ∷ [])
  unfolding request_headers values bytes_eq
  values-request_headers d method n branch other = rw values-add (
      rw values-add (
        rw values-add (
          rw values-add (
            rw values-add
              (rw values-add (rw values-add (rw values-route_headers (rw values-add refl))))))))

  get_of_values :
      (h : Headers) (name v : Bytes) (vs : List Bytes) → values h name ≡ v ∷ vs → get h name ≡ v
  get_of_values h name v vs e = get-values h name ∙ ap first_or_nil e

  -- Whenever a request inside a dialog can be built, it is routed as the dialog says: its URI is the
  -- peer's Contact, its Route headers are the set of routes in order, Call-ID, CSeq, From and To are
  -- those of the dialog, and it goes to the first route, or to the Contact if there is no route.
  pub new_request-IsRouted :
      (d : Dialog) (method : Bytes) (n : ℕ) (branch : Bytes) {m : Message} {dst : AddrPort}
      → new_request text cfg contact_user d method n branch ≡ ok (m, dst)
      → IsRouted d method n m dst
  unfolding new_request next_hop call_id canon bytes_eq
  new_request-IsRouted d method n branch {m} {dst} e =
      let found = values-request_headers d method n branch in
      elim (Result-cases
        (addr_port_from_uri text (next_hop text cfg contact_user d) default_sip_port)) [
          | inr (x, q) ↦ cc (rw (q, new_request) at e)
          | inl (hop, q) ↦
              let built : Message × AddrPort = (
                request method d.remote_target
                    (request_headers text cfg contact_user d method n branch),
                hop,
              ) in
              subst (λ (r : Message × AddrPort). IsRouted d method n r.0 r.1)
                (ok_injective {x = built} (new_request text cfg contact_user d method n branch)
                  (rw (q, new_request) refl) e)
                (record {
                  target = refl;
                  method_is = refl;
                  routes = found (codes "Route") ∙ simp append-nil;
                  call_id_is = get_of_values _ (codes "Call-ID") _ [] (found (codes "Call-ID"));
                  cseq_is = get_of_values _ (codes "CSeq") _ [] (found (codes "CSeq"));
                  from_is = get_of_values _ (codes "From") _ [] (found (codes "From"));
                  to_is = get_of_values _ (codes "To") _ [] (found (codes "To"));
                  no_route = λ z. rw (z, next_hop) at q;
                  first_route = λ r rs z. rw (z, next_hop) at q;
                })
        ]
