-- ===== src/FieldPaths/Web.antt =====
-- src/pipeline/field_paths.rs: the candidate paths of the columns for HTTP and application fields.
use Prim.Native.String.{String}
use mathlib.Core.List.{List, [], ◌∷◌}

abbrev pub url : List String
url =
    "url" ∷ "uri" ∷ "request_uri" ∷ "URL" ∷ "win.eventdata.objectName" ∷ "aws.requestParameters.url"
    ∷ "request" ∷ "aws.requestParameters.bucketName" ∷ "gcp.protoPayload.resourceName"
    ∷ "github.repo" ∷ "office365.ObjectId" ∷ "office365.SiteUrl" ∷ "office365.SourceRelativeUrl"
    ∷ "azure.properties.resourceUri" ∷ "okta.target.displayName" ∷ "aws.request_uri"
    ∷ "aws.httpRequest.uri" ∷ "ClientRequestURI" ∷ "win.eventdata.shareName"
    ∷ "win.eventdata.targetObject" ∷ "url_path" ∷ "query_string" ∷ []

abbrev pub http_method : List String
http_method =
    "method" ∷ "http_method" ∷ "reqtype" ∷ "aws.requestParameters.httpMethod"
    ∷ "aws.httpRequest.httpMethod" ∷ "aws.operation" ∷ "ClientRequestMethod" ∷ "request_method"
    ∷ "requestMethod" ∷ []

abbrev pub http_status : List String
http_status =
    "http_response_code" ∷ "http_status_code" ∷ "http_status" ∷ "response_code" ∷ "status_code"
    ∷ "aws.elb_status_code" ∷ "aws.http_status" ∷ "EdgeResponseStatus"
    ∷ "gcp.jsonPayload.statusCode" ∷ []

abbrev pub app_name : List String
app_name =
    "app" ∷ "application" ∷ "appName" ∷ "service" ∷ "service_name" ∷ "product_name" ∷ "product"
    ∷ "product.name" ∷ "protocol" ∷ "aws.eventSource" ∷ "aws.userIdentity.invokedBy"
    ∷ "aws.userAgent" ∷ "office365.Workload" ∷ "office365.ApplicationDisplayName"
    ∷ "office365.EventSource" ∷ "office365.UserAgent" ∷ "aws.elb" ∷ "aws.webaclId"
    ∷ "azure.resourceType" ∷ "azure.properties.appDisplayName" ∷ "okta.target.alternateId"
    ∷ "okta.client.userAgent.browser" ∷ "module" ∷ "win.system.providerName" ∷ "win.system.channel"
    ∷ "metadata.product.name" ∷ "mongodb.component" ∷ "aws.finding.ProductName"
    ∷ "ms-graph.detectionSource" ∷ "ms-graph.serviceSource" ∷ "ms-graph.resource"
    ∷ "jenkins.component" ∷ "osquery.name" ∷ "osquery.pack" ∷ []
