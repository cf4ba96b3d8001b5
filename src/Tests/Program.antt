-- ===== src/Tests/Program.antt =====
-- All definitions, opened for runs.
use lacme.Base64.{
  urlsafe_b64encode, b64url_encode, decode_group, b64decode, padding, b64url_decode_strict, symbol,
  is_symbol, digit,
}
use lacme.Challenges.Dns01.{
  acme_challenge_domain, wait_for_propagation, provision_record, deprovision_record,
}
use lacme.Challenges.Http01.{
  token_rest, token_re, provision_token, deprovision_token, answer_token, answer_path, answer,
  run_tokens,
}
use lacme.Client.Nonces.{offered, calls}
use lacme.Client.Polling.{poll, poll_authorization, poll_order, poll_order_ready}
use lacme.Client.Requests.{
  harvest_nonce, check_response, take_nonce, read_nonce, fetch_nonce, get_nonce, read_reply,
  raw_signed_request, spend_nonce, one_try, attempt, signed_request,
}
use lacme.Client.Retries.{posts}
use lacme.Errors.{class_of, server_error_from_response}
use lacme.Events.{
  event_name, subscribe, without, without_each, unsubscribe, callbacks_for, invoke_each, emit,
  invoke_sync, emit_sync,
}
use lacme.Events.Subscriptions.{subscribers, heard_by, all_heard_by, register, register_all}
use lacme.Identifiers.Bundle.{pop_match, order_values, certificate_bundle_identifier_values}
use lacme.Identifiers.Csr.{
  mem, subset, identifier_value_from_general_name, identifier_values_from_sans,
  csr_san_identifier_values, csr_ca_identifier_values, identifier_key_set,
  protocol_identifier_key_set, adds_common_name, add_common_names, validate_csr_identifiers,
  decode_and_validate_csr, certificate_identifier_values,
}
use lacme.Identifiers.Dns.{
  is_alnum, ends_alnum, label_re, is_canonical, check_label, check_labels, strip_wildcard,
  validate_dns_identifier,
}
use lacme.Identifiers.Values.{
  traverse, validate_identifier_value, normalize_identifier_values, identifier_key_from_value,
  protocol_identifier_from_value, normalize_ip, normalize_protocol_identifier,
  identifier_key_from_protocol, normalize_raw_identifier, normalize_items,
  normalize_protocol_identifiers, value_from_wire, protocol_identifier_values,
}
use lacme.Issuing.Calls.{find_challenge_in}
use lacme.Issuing.Effective.{
  zip, authorization_key, overrides_of, effective_of, check_compatible, plan, route_of,
}
use lacme.Issuing.Issue.{
  get_authorizations, ask, solve_one, solve_each, poll_each, collect, solve, deprovision_each,
  build_bundle, conclude, issue_within_limits, issue_plan, issue_certificate,
}
use lacme.Issuing.Monad.{◌>>=◌, finally}
use lacme.Jose.{
  as_object, require, decode_field, is_flattened, json_loads_strict, parse_payload,
  parse_unverified_jws,
}
use lacme.Json.{find, of_list}
use lacme.Metrics.{inc, handle, setup_metrics, emit_all}
use lacme.Metrics.Counted.{issued_for, renewed_for, failed_for, occurrences}
use lacme.Mock.Accounts.{mock_read_account, mock_find_account, mock_register, mock_new_account}
use lacme.Mock.Challenges.{
  mock_challenges, mock_authz_body, mock_authz, mock_find, validate_challenge,
  mock_answer_challenge,
}
use lacme.Mock.Orders.{
  mock_read_order, mock_authorization, mock_authorize, mock_place_order, mock_order_body,
  mock_new_order, mock_all_valid, mock_promote, mock_read_csr, mock_issue, mock_finalize_found,
  mock_finalize, mock_order, mock_cert,
}
use lacme.Mock.Serve.{mock_route, mock_checked, handle_request}
use lacme.Mock.View.{view_dict}
use lacme.Prelude.{count_of, str_eq, pair_eq, pair_Eq, take, drop, filter}
use lacme.Prelude.Decimal.{decimal}
use lacme.Prelude.Dict.{get, put, pop, values}
use lacme.Prelude.Text.{
  strip_prefix, starts_with, lower_char, lower, split_onto, split, join, last_or, rstrip,
}
use lacme.RateLimit.Domains.{bare_domain, last_labels, default_registered_domain}
use lacme.RateLimit.Enforced.{issue, issue_all}
use lacme.RateLimit.Sorted.{set_of, str_ltb, insert, sort, sorted_set}
use lacme.RateLimit.Store.{pruned, file_record}
use lacme.RateLimit.Tracker.{
  registered, warnings_for, events_for, check_each, check, record_each, record_issued,
}
use lacme.Renewal.{texts, renewal_values, issue_renewal, renew, sweep, check_and_renew}
use lacme.Renewal.Sweep.{last_saved}
use lacme.Responder.Accounts.{
  jwk_thumbprint, find_account, register_account, read_account_request, handle_new_account,
}
use lacme.Responder.Bodies.{joined}
use lacme.Responder.Challenges.{
  authorization_challenges, authz_body, handle_authz, find_challenge, answer_challenge,
  challenge_body, handle_challenge,
}
use lacme.Responder.Orders.{
  new_authorization, add_authorizations, place_order, read_order_request, handle_new_order,
  all_valid, promote, record_certificate, read_csr, finalize_ready, finalize_found, order_url_of,
  handle_finalize, handle_order, handle_cert,
}
use lacme.Responder.Replies.{order_body}
use lacme.Responder.Request.{
  read_messages, read_body, read_valid_jws, get_base_url, mounted_path, route, nonce_text,
}
use lacme.Responder.Runs.{run, nonces}
use lacme.Responder.Serve.{with_jws, dispatch, respond, serve}
use lacme.Store.Bundle.{meta_to_dict, item, items_of, keys_of, tuple_of, meta_from_dict}
use lacme.Store.Faults.{perform_until}
use lacme.Store.FileStore.{
  atomic_write, atomic_writes, remove_file, remove_files, directory_at, resolve_certs_dir,
  resolve_domain_dir, resolve_ca_dir, read_cert_meta, load_cert_from_dir,
}
use lacme.Store.Interface.{memory_delete_cert, memory_cert_store}
use lacme.Store.Modes.{write, write_all}
use lacme.Store.Names.{
  is_hex_digit, size_of, is_encodable, before_dot, rstrip_space_dot, ends_space_dot, upper,
  validate_domain_key, is_portable_domain_component, is_portable, component_of, domain_component,
}
use lacme.Store.Operations.{
  insert_by, sort_by, cert_writes, save_cert_until, file_load_cert, list_each, file_list_certs,
  delete_cert_until, file_cert_store,
}
use lacme.Store.Sessions.{perform, run_calls}
use lacme.Tests.World.{address_text, parse_address, is_scoped, load_csr, load_pem, loads, envelope}

unfoldable pub program : Unit {0}
unfolding urlsafe_b64encode b64url_encode decode_group b64decode padding b64url_decode_strict symbol
    is_symbol digit acme_challenge_domain wait_for_propagation provision_record deprovision_record
    token_rest token_re provision_token deprovision_token answer_token answer_path answer run_tokens
    offered calls poll poll_authorization poll_order poll_order_ready harvest_nonce check_response
    take_nonce read_nonce fetch_nonce get_nonce read_reply raw_signed_request spend_nonce one_try
    attempt signed_request posts class_of server_error_from_response event_name subscribe without
    without_each unsubscribe callbacks_for invoke_each emit invoke_sync emit_sync subscribers
    heard_by all_heard_by register register_all pop_match order_values
    certificate_bundle_identifier_values mem subset identifier_value_from_general_name
    identifier_values_from_sans csr_san_identifier_values csr_ca_identifier_values
    identifier_key_set protocol_identifier_key_set adds_common_name add_common_names
    validate_csr_identifiers decode_and_validate_csr certificate_identifier_values is_alnum
    ends_alnum label_re is_canonical check_label check_labels strip_wildcard validate_dns_identifier
    traverse validate_identifier_value normalize_identifier_values identifier_key_from_value
    protocol_identifier_from_value normalize_ip normalize_protocol_identifier
    identifier_key_from_protocol normalize_raw_identifier normalize_items
    normalize_protocol_identifiers value_from_wire protocol_identifier_values find_challenge_in zip
    authorization_key overrides_of effective_of check_compatible plan route_of get_authorizations
    ask solve_one solve_each poll_each collect solve deprovision_each build_bundle conclude
    issue_within_limits issue_plan issue_certificate ◌>>=◌ finally as_object require decode_field
    is_flattened json_loads_strict parse_payload parse_unverified_jws find of_list inc handle
    setup_metrics emit_all issued_for renewed_for failed_for occurrences mock_read_account
    mock_find_account mock_register mock_new_account mock_challenges mock_authz_body mock_authz
    mock_find validate_challenge mock_answer_challenge mock_read_order mock_authorization
    mock_authorize mock_place_order mock_order_body mock_new_order mock_all_valid mock_promote
    mock_read_csr mock_issue mock_finalize_found mock_finalize mock_order mock_cert mock_route
    mock_checked handle_request view_dict count_of decimal get put pop values str_eq pair_eq pair_Eq
    take drop filter strip_prefix starts_with lower_char lower split_onto split join last_or rstrip
    bare_domain last_labels default_registered_domain issue issue_all set_of str_ltb insert sort
    sorted_set pruned file_record registered warnings_for events_for check_each check record_each
    record_issued texts renewal_values issue_renewal renew sweep check_and_renew last_saved
    jwk_thumbprint find_account register_account read_account_request handle_new_account joined
    authorization_challenges authz_body handle_authz find_challenge answer_challenge challenge_body
    handle_challenge new_authorization add_authorizations place_order read_order_request
    handle_new_order all_valid promote record_certificate read_csr finalize_ready finalize_found
    order_url_of handle_finalize handle_order handle_cert order_body read_messages read_body
    read_valid_jws get_base_url mounted_path route nonce_text run nonces with_jws dispatch respond
    serve meta_to_dict item items_of keys_of tuple_of meta_from_dict perform_until atomic_write
    atomic_writes remove_file remove_files directory_at resolve_certs_dir resolve_domain_dir
    resolve_ca_dir read_cert_meta load_cert_from_dir memory_delete_cert memory_cert_store write
    write_all is_hex_digit size_of is_encodable before_dot rstrip_space_dot ends_space_dot upper
    validate_domain_key is_portable_domain_component is_portable component_of domain_component
    insert_by sort_by cert_writes save_cert_until file_load_cert list_each file_list_certs
    delete_cert_until file_cert_store perform run_calls address_text parse_address is_scoped
    load_csr load_pem loads envelope
program = tt
