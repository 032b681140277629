-- ===== src/Auth/Suffixes.antt =====
-- auth/constants/username-suffixes.constants.ts: what is appended to a name that is taken.
use schematica_api.Common.{String, List, [], ◌∷◌}

abbrev pub username_suffixes : List String
username_suffixes =
    "_async" ∷ "_await" ∷ "_promise" ∷ "_callback" ∷ "_middleware" ∷ "_endpoint" ∷ "_controller"
    ∷ "_router" ∷ "_service" ∷ "_repository" ∷ "_schema" ∷ "_model" ∷ "_interface" ∷ "_pipeline"
    ∷ "_validator" ∷ "_compiler" ∷ "_runtime" ∷ "_module" ∷ "_package" ∷ "_library" ∷ "_framework"
    ∷ "_serverless" ∷ "_containerized" ∷ "_dockerized" ∷ "_selfhosted" ∷ "_cloudnative"
    ∷ "_clustered" ∷ "_kubernetes" ∷ "_deployed" ∷ "_scaled" ∷ "_autoscaled" ∷ "_loadbalanced"
    ∷ "_reverseProxy" ∷ "_microservice" ∷ "_monolith" ∷ "_monorepo" ∷ "_multirepo" ∷ "_cicd"
    ∷ "_staging" ∷ "_prodReady" ∷ "_featureFlagged" ∷ "_linted" ∷ "_typed" ∷ "_tested"
    ∷ "_unitTested" ∷ "_integrationTested" ∷ "_refactor" ∷ "_reviewed" ∷ "_merged" ∷ "_rebased"
    ∷ "_commit" ∷ "_branch" ∷ "_hotfix" ∷ "_patch" ∷ "_release" ∷ "_buildPassed" ∷ "_buildFailed"
    ∷ "_debugMode" ∷ "_sandboxed" ∷ "_versioned" ∷ "_deprecated" ∷ "_stable" ∷ "_localhost"
    ∷ "_devMode" ∷ "_stagingEnv" ∷ "_production" ∷ "_config" ∷ "_dotenv" ∷ "_envVar" ∷ "_runtimeEnv"
    ∷ "_entrypoint" ∷ "_bootstrapped" ∷ "_initialized" ∷ "_hydrated" ∷ "_cached" ∷ "_persistent"
    ∷ "_stateless" ∷ "_stateful" ∷ "_immutable" ∷ "_distributed" ∷ "_scalable" ∷ "_optimized"
    ∷ "_apiDriven" ∷ "_jsonified" ∷ "_restful" ∷ "_graphql" ∷ "_websocket" ∷ "_sdk" ∷ "_frontend"
    ∷ "_backend" ∷ "_fullstack" ∷ "_ci" ∷ "_cd" ∷ "_infra" ∷ "_automation" ∷ "_observability"
    ∷ "_logging" ∷ "_instrumented" ∷ "_traced" ∷ "_monitored" ∷ "_orchestrated" ∷ "_loadTested"
    ∷ "_coffeeAddict" ∷ "_keyboardWarrior" ∷ "_darkMode" ∷ "_tabOverSpace" ∷ "_codeReview"
    ∷ "_pairProgrammer" ∷ "_nightlyBuild" ∷ "_openSource" ∷ "_featureBranch" ∷ "_techDebt"
    ∷ "_commitChaser" ∷ "_mergeFriday" ∷ "_codeFreeze" ∷ "_releaseCandidate" ∷ "_buildRunner"
    ∷ "_syntaxerror" ∷ "_runtimeError" ∷ "_raceCondition" ∷ "_memoryLeak" ∷ "_timeout"
    ∷ "_nullReference" ∷ "_stacktrace" ∷ "_overflow" ∷ "_retrying" ∷ "_unhandled" ∷ "_exception"
    ∷ "_debugged" ∷ "_fixed" ∷ "_logged" ∷ "_resolved" ∷ "_compiled" ∷ "_caught" ∷ "_validated"
    ∷ "_aiReady" ∷ "_finetuned" ∷ "_prompted" ∷ "_apiKey" ∷ "_cloudSynced" ∷ "_offlineFirst"
    ∷ "_edgeDeployed" ∷ "_tokenized" ∷ "_authRequired" ∷ "_secure" ∷ "_encrypted"
    ∷ "_cachedResponse" ∷ "_rateLimited" ∷ "_resilient" ∷ "_idempotent" ∷ "_scalable"
    ∷ "_highAvailability" ∷ []
