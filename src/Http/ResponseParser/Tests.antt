-- ===== src/Http/ResponseParser/Tests.antt =====
-- Responses, and the theorems at them.
use oos.Prelude.{◌≡◌}
use oos.Http.Status.{not_found, to_request_string}
use oos.Http.ResponseParser.{scan}
use oos.Http.ResponseState.{response_parser, response}
use oos.Http.ResponseParser.StatusText.{status_read, scan-to_request_string}

scan-to_request_string_example :
    scan (to_request_string not_found) response_parser response ≡ status_read not_found
scan-to_request_string_example = scan-to_request_string not_found
